-- ===== src/Command/Keeps.antt =====
-- What a parser leaves true if each of its steps does, for any predicate on the structures.
use vision_box_dual_cam.Base.{
  Bool, true, false, ℕ, ltb, length, codes, ◌<◌, ◌≡◌, refl, subst, String, List, [], ◌∷◌, Option,
  some, none, some-injective, if◌then◌else◌, arith,
}
use vision_box_dual_cam.Base.Int.{ℤ}
use vision_box_dual_cam.Command.{Requests}
use vision_box_dual_cam.Command.Json.{
  JsonC, Arg, int_at, string_at, text_at, body, strcpy, run_arg, run_args, with_args,
}

pub taken :
    {A : Type 0} (b : Bool) (x y : A) → (if b then some x else none) ≡ some y → (b ≡ true) × (x ≡ y)
taken true x y h = (refl, some-injective x y h)
taken false x y h = cc

-- Inversion of the use of an optional value.
pub bound :
    {A B : Type 0} (o : Option A) (f : A → B) (y : B)
    → elim o as (λ _. Option B) [ some x ↦ some (f x) | none ↦ none ] ≡ some y
    → (x : A) × (o ≡ some x) × (f x ≡ y)
bound (some x) f y h = (x, refl, some-injective (f x) y h)
bound none f y h = cc

pub ltb_lem : (m n : ℕ) → ltb m n ≡ true → m < n
ltb_lem m n h = ground arith

pub strcpy-fits : (size : ℕ) (s t : String) → strcpy size s ≡ some t → length (codes t) < size
unfolding strcpy
strcpy-fits size s t h =
    let (e, q) = taken (ltb (length (codes s)) size) s t h in
    subst (λ u. length (codes u) < size) q (ltb_lem (length (codes s)) size e)

module _ {J : Type 0} (lib : JsonC J) (P : Requests → Type 0) where
  -- What the argument puts leaves the predicate true.
  abbrev pub Keeps : Arg J → Type 0
  Keeps (int_at key put) = (n : ℤ) (r : Requests) → P r → P (put n r)
  Keeps (string_at key size put) =
      (s : String) (r : Requests) → length (codes s) < size → P r → P (put s r)
  Keeps (text_at key put) = (s : String) (r : Requests) → P r → P (put s r)
  Keeps (body f) = (args : J) (r r' : Requests) → P r → f args r ≡ some r' → P r'

  abbrev pub AllKeep : List (Arg J) → Type 0
  AllKeep [] = Unit
  AllKeep (f ∷ fs) = Keeps f × AllKeep fs

  put_or :
      (o : Option J) (g : J → Requests) (r r' : Requests)
      → P r
      → ((v : J) → P (g v))
      → elim o as (λ _. Option Requests) [ some v ↦ some (g v) | none ↦ some r ] ≡ some r'
      → P r'
  put_or (some v) g r r' h k e = subst P (some-injective (g v) r' e) (k v)
  put_or none g r r' h k e = subst P (some-injective r r' e) h

  copied :
      (o : Option String) (put : String → Requests → Requests) (r r' : Requests)
      → ((s : String) → o ≡ some s → P (put s r))
      → elim o as (λ _. Option Requests) [ some s ↦ some (put s r) | none ↦ none ] ≡ some r'
      → P r'
  copied (some s) put r r' k e = subst P (some-injective (put s r) r' e) (k s refl)
  copied none put r r' k e = cc

  string_or :
      (o : Option J) (size : ℕ) (put : String → Requests → Requests) (r r' : Requests)
      → P r
      → ((s : String) → length (codes s) < size → P (put s r))
      → elim o as (λ _. Option Requests) [
        | some v ↦ elim (strcpy size (lib.get_string v)) [ some s ↦ some (put s r) | none ↦ none ]
        | none ↦ some r
      ]
        ≡ some r'
      → P r'
  string_or (some v) size put r r' h k e =
      copied (strcpy size (lib.get_string v)) put r r'
        (λ s q. k s (strcpy-fits size (lib.get_string v) s q)) e
  string_or none size put r r' h k e = subst P (some-injective r r' e) h

  run_arg-Keeps :
      (f : Arg J) (args : J) (r r' : Requests)
      → Keeps f
      → P r
      → run_arg lib f args r ≡ some r'
      → P r'
  unfolding run_arg
  run_arg-Keeps (int_at key put) args r r' k h e =
      put_or (lib.object_get key args) (λ v. put (lib.get_int v) r) r r' h
        (λ v. k (lib.get_int v) r h) e
  run_arg-Keeps (string_at key size put) args r r' k h e =
      string_or (lib.object_get key args) size put r r' h (λ s q. k s r q h) e
  run_arg-Keeps (text_at key put) args r r' k h e =
      put_or (lib.object_get key args) (λ v. put (lib.get_string v) r) r r' h
        (λ v. k (lib.get_string v) r h) e
  run_arg-Keeps (body f) args r r' k h e = k args r r' h e

  first_step :
      (o : Option Requests) (f : Requests → Option Requests) (r' : Requests)
      → ((r1 : Requests) → o ≡ some r1 → f r1 ≡ some r' → P r')
      → elim o as (λ _. Option Requests) [ some r1 ↦ f r1 | none ↦ none ] ≡ some r'
      → P r'
  first_step (some r1) f r' k e = k r1 refl e
  first_step none f r' k e = cc

  pub run_args-Keeps :
      (fs : List (Arg J))
      → AllKeep fs
      → (args : J) (r r' : Requests) → P r
      → run_args lib fs args r ≡ some r'
      → P r'
  unfolding run_args
  run_args-Keeps [] k args r r' h e = subst P (some-injective r r' e) h
  run_args-Keeps (f ∷ fs) (k, ks) args r r' h e =
      first_step (run_arg lib f args r) (λ r1. run_args lib fs args r1) r'
        (λ r1 e1 e2. run_args-Keeps fs ks args r1 r' (run_arg-Keeps f args r r1 k h e1) e2) e

  with_or :
      (o : Option J) (fs : List (Arg J)) (r r' : Requests)
      → AllKeep fs
      → ((s : String) (r : Requests) → length (codes s) < 512 → P r → P (record r { cmd_info = s }))
      → P r
      → elim o as (λ _. Option Requests) [
        | some args ↦ elim (run_args lib fs args r) [
          | some r1 ↦ elim (strcpy 512 (lib.get_string args)) [
            | some s ↦ some (record r1 { cmd_info = s })
            | none ↦ none
          ]
          | none ↦ none
        ]
        | none ↦ none
      ]
        ≡ some r'
      → P r'
  with_or none fs r r' ks note h e = cc
  with_or (some args) fs r r' ks note h e =
      first_step (run_args lib fs args r)
        (λ r1. elim (strcpy 512 (lib.get_string args)) [
          | some s ↦ some (record r1 { cmd_info = s })
          | none ↦ none
        ])
        r'
        (λ r1 e1 e2.
          copied (strcpy 512 (lib.get_string args)) (λ s r. record r { cmd_info = s }) r1 r'
            (λ s q.
              note s r1 (strcpy-fits 512 (lib.get_string args) s q)
                (run_args-Keeps fs ks args r r1 h e1))
            e2)
        e

  pub with_args-Keeps :
      (fs : List (Arg J))
      → AllKeep fs
      → ((s : String) (r : Requests) → length (codes s) < 512 → P r → P (record r { cmd_info = s }))
      → (root : J) (r r' : Requests) → P r
      → with_args lib fs root r ≡ some r'
      → P r'
  unfolding with_args
  with_args-Keeps fs ks note root r r' h e =
      with_or (lib.object_get "args" root) fs r r' ks note h e
