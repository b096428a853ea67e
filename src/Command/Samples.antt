-- ===== src/Command/Samples.antt =====
-- Concrete JSON documents for the tests, and what the library answers for them.
use vision_box_dual_cam.Base.{String, streq, List, [], ◌∷◌, Option, none, some, if◌then◌else◌}
use vision_box_dual_cam.Base.Int.{ℤ, pos}
use vision_box_dual_cam.Command.Json.{JsonC}

mutual
  pub data Doc : Type 0 where
    num : ℤ → Doc
    str : String → Doc
    obj : Keys → Doc
    arr : Docs → Doc

  pub data Keys : Type 0 where
    stop : Keys
    key : String → Doc → Keys → Keys

  pub data Docs : Type 0 where
    last : Docs
    item : Doc → Docs → Docs

unfoldable pub find_key : String → Keys → Option Doc
find_key s stop = none
find_key s (key k d ks) = if streq s k then some d else find_key s ks

unfoldable pub items : Docs → List Doc
items last = []
items (item d ds) = d ∷ items ds

unfoldable pub get : String → Doc → Option Doc
unfolding find_key
get s (obj ks) = find_key s ks
get s d = none

unfoldable pub int_in : Doc → ℤ
int_in (num n) = n
int_in d = pos 0

unfoldable pub text_in : Doc → String
text_in (str s) = s
text_in d = "{}"

unfoldable pub docs_in : Doc → List Doc
unfolding items
docs_in (arr ds) = items ds
docs_in d = []

abbrev pub sample_lib : JsonC Doc
sample_lib = record { object_get = get; get_int = int_in; get_string = text_in; array = docs_in }

-- A command with its arguments.
abbrev pub command : String → Keys → Doc
command name args = obj (key "cmd" (str name) (key "args" (obj args) stop))

-- An output that is switched by hand.
abbrev pub dout_command : ℤ → Doc
dout_command pin =
    command "DOUT_MANUAL_CONTROL" (key "DoutPin" (num pin) (key "DoutActive" (str "High") stop))
