-- ===== src/Base/Inverse.antt =====
-- How a result came about: through a value that was there or a default, through one branch of a test.
use mathlib.Core.Path.{◌≡◌, refl}
use mathlib.Core.Logic.{◌⊎◌, inl, inr}
use mathlib.Core.Bool.{Bool, true, false}
use vision_box_dual_cam.Base.Tests.{if◌then◌else◌}
use mathlib.Core.Option.{Option, none, some}

pub bind_inv :
    {A B : Type 0} (o : Option A) (f : A → Option B) (d : Option B) (b : B)
    → elim o [ some a ↦ f a | none ↦ d ] ≡ some b
    → ((a : A) × (o ≡ some a) × (f a ≡ some b)) ⊎ (d ≡ some b)
bind_inv none f d b h = inr h
bind_inv (some a) f d b h = inl (a, refl, h)

pub if_inv : {A : Type 0} (t : Bool) (x y z : A) → (if t then x else y) ≡ z → (x ≡ z) ⊎ (y ≡ z)
if_inv true x y z h = inl h
if_inv false x y z h = inr h

-- What holds of both branches holds of the conditional.
pub either : {A : Type 0} (P : A → Type 0) (t : Bool) (x y : A) → P x → P y → P (if t then x else y)
either P true x y p q = p
either P false x y p q = q

-- The same, where each branch may use what the test gave.
pub either_by :
    {A : Type 0} (P : A → Type 0) (t : Bool) (x y : A)
    → (t ≡ true → P x)
    → (t ≡ false → P y)
    → P (if t then x else y)
either_by P true x y p q = p refl
either_by P false x y p q = q refl
