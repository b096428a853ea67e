-- ===== src/Command/Json.antt =====
-- The library json-c as the program uses it, and the ways in which a parser takes one argument out of a
-- message. `none` is a copy from a null pointer or past the end of an array.
use vision_box_dual_cam.Base.{
  ℕ, ltb, length, codes, String, List, [], ◌∷◌, Option, none, some, if◌then◌else◌,
}
use vision_box_dual_cam.Base.Int.{ℤ}
use vision_box_dual_cam.Command.{Requests}

-- What the library answers for an object of a message, none of them null.
pub record JsonC (J : Type 0) : Type 0 where
  pub object_get : String → J → Option J  -- json_object_object_get, with none for a null pointer
  pub get_int : J → ℤ  -- json_object_get_int
  pub get_string : J → String  -- json_object_get_string
  pub array : J → List J  -- json_object_array_length and json_object_array_get_idx

-- `strcpy` into an array of so many bytes.
unfoldable pub strcpy : (size : ℕ) → String → Option String
strcpy size s = if ltb (length (codes s)) size then some s else none

-- One `if (j_param != nullptr)` on an argument of the message: an `int`, a text that `strcpy` puts into an
-- array, a text that is used in another way, or several arguments at once.
pub data Arg (J : Type 0) : Type 0 where
  int_at : String → (ℤ → Requests → Requests) → Arg J
  string_at : String → (size : ℕ) → (String → Requests → Requests) → Arg J
  text_at : String → (String → Requests → Requests) → Arg J
  body : (J → Requests → Option Requests) → Arg J

module _ {J : Type 0} (lib : JsonC J) where
  unfoldable pub run_arg : Arg J → J → Requests → Option Requests
  unfolding strcpy
  run_arg (int_at key put) args r = elim (lib.object_get key args) [
    | some v ↦ some (put (lib.get_int v) r)
    | none ↦ some r
  ]
  run_arg (string_at key size put) args r = elim (lib.object_get key args) [
    | some v ↦ elim (strcpy size (lib.get_string v)) [ some s ↦ some (put s r) | none ↦ none ]
    | none ↦ some r
  ]
  run_arg (text_at key put) args r = elim (lib.object_get key args) [
    | some v ↦ some (put (lib.get_string v) r)
    | none ↦ some r
  ]
  run_arg (body f) args r = f args r

  unfoldable pub run_args : List (Arg J) → J → Requests → Option Requests
  unfolding run_arg
  run_args [] args r = some r
  run_args (f ∷ fs) args r = elim (run_arg f args r) [ some r' ↦ run_args fs args r' | none ↦ none ]

  -- The frame of every parser: the arguments under "args", then their text into `ios_CmdInfo`, 512 bytes.
  -- Without "args" the text is a null pointer.
  unfoldable pub with_args : List (Arg J) → J → Requests → Option Requests
  unfolding run_args strcpy
  with_args fs root r = elim (lib.object_get "args" root) [
    | some args ↦ elim (run_args fs args r) [
      | some r' ↦ elim (strcpy 512 (lib.get_string args)) [
        | some s ↦ some (record r' { cmd_info = s })
        | none ↦ none
      ]
      | none ↦ none
    ]
    | none ↦ none
  ]
