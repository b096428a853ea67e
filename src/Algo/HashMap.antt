-- ===== src/Algo/HashMap.antt =====
-- The `unordered_map` from a command's name to its row that each table of commands has, and the two
-- functions that fill it and look a name up.
pub mod Laws
use vision_box_dual_cam.Base.{
  ℕ, suc, ◌+◌, Bool, true, false, List, [], ◌∷◌, Option, none, some, String, streq, if◌then◌else◌,
}
use vision_box_dual_cam.Base.Int.{ℤ, pos, failure}

abbrev pub HashMap : Type 0
HashMap = List (String × ℕ)

-- `map[key] = i`, which overwrites.
unfoldable pub insert : String → ℕ → HashMap → HashMap
insert k i [] = (k, i) ∷ []
insert k i ((j, w) ∷ m) = if streq j k then (j, i) ∷ m else (j, w) ∷ insert k i m

-- `map.find(key)`.
unfoldable pub find : String → HashMap → Option ℕ
find k [] = none
find k ((j, w) ∷ m) = if streq j k then some w else find k m

-- The loop over the table, at row `i`.
unfoldable pub insert_rows : ℕ → List String → HashMap → HashMap
insert_rows i [] m = m
insert_rows i (k ∷ rows) m = insert_rows (suc i) rows (insert k i m)

-- `createHashMap_Param`, `createHashMap_Method` and `createHashMap_IO_Param`: a map that is filled
-- already stays as it is.
unfoldable pub create_hash_map : List String → HashMap → HashMap
unfolding insert_rows
create_hash_map table [] = insert_rows 0 table []
create_hash_map table (e ∷ m) = e ∷ m

-- The row if one is found, or -1.
unfoldable pub answer : Option ℕ → ℤ
answer (some i) = pos i
answer none = failure

-- `compareHashMap_Param`, `compareHashMap_Method` and `compareHashMap_IO_Param`.
unfoldable pub compare_hash_map : String → HashMap → ℤ
unfolding answer
compare_hash_map key m = answer (find key m)
