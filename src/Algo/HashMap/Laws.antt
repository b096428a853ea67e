-- ===== src/Algo/HashMap/Laws.antt =====
-- A name of the table is found at the last row that has it, and no other name is found.
use vision_box_dual_cam.Base.{
  ℕ, suc, zero, ◌+◌, ◌≡◌, refl, sym, subst, streq_refl, ◌≢◌, Bool, true, false, List, [], ◌∷◌,
  Option, none, some, some-injective, String, streq, streq_iff, if◌then◌else◌, arith, get_elem?,
  not, ◌&&◌, ◌||◌, ◌∙◌, ap, ◌⊎◌, inl, inr, Bool-cases, ◌↔◌,
}
use vision_box_dual_cam.Base.Int.{pos, failure}
use vision_box_dual_cam.Algo.HashMap.{
  HashMap, insert, find, insert_rows, create_hash_map, answer, compare_hash_map,
}

find-insert :
    (k j : String) (i : ℕ) (m : HashMap)
    → find j (insert k i m) ≡ (if streq k j then some i else find j m)
unfolding find insert
find-insert k j i [] = ground arith
find-insert k j i ((h, w) ∷ m) =
    ground (arith, streq_iff k j, streq_iff h k, streq_iff h j, find-insert k j i m)

-- The row of the last occurrence of a name in a table whose first row is `i`; `before` is the answer
-- where the name does not occur.
pub last_row : String → ℕ → List String → Option ℕ → Option ℕ
last_row key i [] before = before
last_row key i (k ∷ rows) before =
    last_row key (suc i) rows (if streq k key then some i else before)

find-insert_rows :
    (key : String) (i : ℕ) (rows : List String) (m : HashMap)
    → find key (insert_rows i rows m) ≡ last_row key i rows (find key m)
unfolding insert_rows last_row
find-insert_rows key i [] m = refl
find-insert_rows key i (k ∷ rows) m =
    find-insert_rows key (suc i) rows (insert k i m)
    ∙ ap (last_row key (suc i) rows) (find-insert k key i m)

pub occurs : String → List String → Bool
occurs key [] = false
occurs key (k ∷ rows) = streq k key || occurs key rows

unfoldable pub distinct : List String → Bool
unfolding occurs
distinct [] = true
distinct (k ∷ rows) = not (occurs k rows) && distinct rows

occurs-get_elem? :
    (key : String) (rows : List String) (n : ℕ)
    → get_elem? rows n ≡ some key
    → occurs key rows ≡ true
unfolding occurs
occurs-get_elem? key [] n h = cc
occurs-get_elem? key (k ∷ rows) zero h = ground (arith, streq_iff k key)
occurs-get_elem? key (k ∷ rows) (suc n) h = ground (arith, occurs-get_elem? key rows n h)

last_row-absent :
    (key : String) (i : ℕ) (rows : List String) (before : Option ℕ)
    → occurs key rows ≡ false
    → last_row key i rows before ≡ before
unfolding last_row occurs
last_row-absent key i [] before h = refl
last_row-absent key i (k ∷ rows) before h = elim (Bool-cases (streq k key)) [
  | inl e ↦ ground (arith, e)
  | inr e ↦ rw e (last_row-absent key (suc i) rows before (ground arith))
]

last_row-head :
    (k : String) (i : ℕ) (rows : List String) (before : Option ℕ)
    → distinct (k ∷ rows) ≡ true
    → last_row k i (k ∷ rows) before ≡ some (i + 0)
unfolding last_row distinct
last_row-head k i rows before d =
    rw (streq_refl k)
      (last_row-absent k (suc i) rows (some i) (ground arith) ∙ ap some (omega arith))

last_row-present :
    (key : String) (i : ℕ) (rows : List String) (before : Option ℕ) (n : ℕ)
    → distinct rows ≡ true
    → get_elem? rows n ≡ some key
    → last_row key i rows before ≡ some (i + n)
unfolding last_row distinct
last_row-present key i [] before n d h = cc
last_row-present key i (k ∷ rows) before zero d h =
    subst (λ q. last_row q i (k ∷ rows) before ≡ some (i + 0)) (some-injective _ _ h)
      (last_row-head k i rows before d)
last_row-present key i (k ∷ rows) before (suc n) d h =
    last_row-present key (suc i) rows (if streq k key then some i else before) n (ground arith) h
    ∙ ap some (omega arith)

found_here :
    (key : String) (i : ℕ) (k : String) (rows : List String) (before : Option ℕ) (r : ℕ)
    → (if streq k key then some i else before) ≡ some r
    → (before ≡ some r) ⊎ ((n : ℕ) × (r ≡ i + n) × (get_elem? (k ∷ rows) n ≡ some key))
found_here key i k rows before r h = elim (Bool-cases (streq k key)) [
  | inl e ↦ inr (0, ground arith, ap some ((streq_iff k key).0 e))
  | inr e ↦ inl (ground arith)
]

last_row_sound :
    (key : String) (i : ℕ) (rows : List String) (before : Option ℕ) (r : ℕ)
    → last_row key i rows before ≡ some r
    → (before ≡ some r) ⊎ ((n : ℕ) × (r ≡ i + n) × (get_elem? rows n ≡ some key))
unfolding last_row
last_row_sound key i [] before r h = inl h
last_row_sound key i (k ∷ rows) before r h =
    elim (last_row_sound key (suc i) rows (if streq k key then some i else before) r h) [
      | inl b ↦ found_here key i k rows before r b
      | inr (n, e, g) ↦ inr (suc n, omega arith, g)
    ]

answer-pos : (o : Option ℕ) (i : ℕ) → answer o ≡ pos i → o ≡ some i
unfolding answer
answer-pos o i h = ground arith

answer-failure : (o : Option ℕ) → answer o ≡ failure → o ≡ none
unfolding answer
answer-failure o h = ground arith

last_row-some :
    (key : String) (i : ℕ) (rows : List String) (r : ℕ) → last_row key i rows (some r) ≢ none
unfolding last_row
last_row-some key i [] r = λ h. cc
last_row-some key i (k ∷ rows) r = elim (Bool-cases (streq k key)) [
  | inl e ↦ rw e (last_row-some key (suc i) rows i)
  | inr e ↦ rw e (last_row-some key (suc i) rows r)
]

last_row-occurs :
    (key : String) (i : ℕ) (rows : List String) (before : Option ℕ)
    → occurs key rows ≡ true
    → last_row key i rows before ≢ none
unfolding last_row occurs
last_row-occurs key i [] before h = cc
last_row-occurs key i (k ∷ rows) before h = elim (Bool-cases (streq k key)) [
  | inl e ↦ rw e (last_row-some key (suc i) rows i)
  | inr e ↦ rw e (last_row-occurs key (suc i) rows before (ground arith))
]

find-create :
    (table : List String) (key : String)
    → find key (create_hash_map table []) ≡ last_row key 0 table none
unfolding find create_hash_map
find-create table key = find-insert_rows key 0 table []

row_of_answer :
    (table : List String) (key : String) (i : ℕ)
    → last_row key 0 table none ≡ some i
    → get_elem? table i ≡ some key
row_of_answer table key i e = elim (last_row_sound key 0 table none i e) [
  | inl b ↦ cc
  | inr (n, r, g) ↦ subst (λ j. get_elem? table j ≡ some key) (omega arith) g
]

-- For a table whose names are all different, and the map that is built from it: a name is looked up
-- with the answer `i` exactly when it stands in row `i` of the table.
pub compare-create :
    (table : List String) (key : String) (i : ℕ)
    → distinct table ≡ true
    → (compare_hash_map key (create_hash_map table []) ≡ pos i) ↔ (get_elem? table i ≡ some key)
unfolding compare_hash_map
compare-create table key i d = (
  λ h. row_of_answer table key i (sym (find-create table key) ∙ answer-pos _ i h),
  λ g. ap answer (find-create table key ∙ last_row-present key 0 table none i d g) ∙ at_zero,
)
  where
    at_zero : answer (some (0 + i)) ≡ pos i
    at_zero = unfold answer in ground arith

-- For any table, with names repeated or not: a name is answered with -1 exactly when it stands nowhere
-- in the table.
compare-create_absent :
    (table : List String) (key : String)
    → (compare_hash_map key (create_hash_map table []) ≡ failure) ↔ (occurs key table ≡ false)
unfolding compare_hash_map
compare-create_absent table key = (
  λ h. elim (Bool-cases (occurs key table)) [
    | inl o ↦
        absurd
          (last_row-occurs key 0 table none o (sym (find-create table key) ∙ answer-failure _ h))
    | inr o ↦ o
  ],
  λ o. ap answer (find-create table key ∙ last_row-absent key 0 table none o),
)
