-- ===== src/Base/Camera.antt =====
-- The camera index `iID` of the functions whose names end in `_Dual`, and the arrays of two
-- elements that it indexes. Every caller in the program passes 0 or 1.
use mathlib.Core.Path.{◌≡◌, refl}

pub data Camera : Type 0 where
  camera_1 camera_2 : Camera

abbrev pub other : Camera → Camera
other camera_1 = camera_2
other camera_2 = camera_1

pub record Dual {ℓ} (A : Type ℓ) : Type ℓ where
  pub first : A
  pub second : A

module _ {ℓ} {A : Type ℓ} where
  abbrev pub at : Camera → Dual A → A
  at camera_1 d = d.first
  at camera_2 d = d.second

  abbrev pub put_at : Camera → A → Dual A → Dual A
  put_at camera_1 a d = record d { first = a }
  put_at camera_2 a d = record d { second = a }

  pub at-put_at_self : (c : Camera) (a : A) (d : Dual A) → at c (put_at c a d) ≡ a
  at-put_at_self camera_1 a d = refl
  at-put_at_self camera_2 a d = refl

  pub at-put_at-other :
      (c : Camera) (a : A) (d : Dual A) → at (other c) (put_at c a d) ≡ at (other c) d
  at-put_at-other camera_1 a d = refl
  at-put_at-other camera_2 a d = refl
