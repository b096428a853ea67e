-- ===== src/Flow/Cases.antt =====
-- A call of a flow handler does nothing, or the case of the node's state and then the display.
use vision_box_dual_cam.Base.{
  ℕ, ◌≡◌, refl, sym, String, Option, some, none, arith, ◌⊎◌, inl, inr, ◌==◌, if◌then◌else◌, Bool,
  true, false, some-injective,
}
use vision_box_dual_cam.Base.Camera.{Camera, at}
use vision_box_dual_cam.Node.{AutoMode, glue_inspection, basic_inspection, ai_inspection, non_auto}
use vision_box_dual_cam.Io.Sysfs.{Os}
use vision_box_dual_cam.Algo.Assign.{Commands}
use vision_box_dual_cam.Flow.State.{Box}
use vision_box_dual_cam.Flow.{handler, flow_case, show}

module _ {Json : Type 0} (os : Os) (cmds : Commands Json) where
  shown_case :
      (c : Camera) (b b' : Box) (r : Option Box)
      → elim r as (λ _. Option Box) [ some b1 ↦ some (show c b1) | none ↦ none ] ≡ some b'
      → (b1 : Box) × (r ≡ some b1) × (b' ≡ show c b1)
  shown_case c b b' (some b1) h = (b1, refl, sym (some-injective _ _ h))
  shown_case c b b' none h = ground arith

  by_mode :
      (m : AutoMode) (c : Camera) (b b' : Box) (r : Option Box)
      → elim m as (λ _. Option Box) [
        | glue_inspection ↦ elim r as (λ _. Option Box) [ some b1 ↦ some (show c b1) | none ↦ none ]
        | basic_inspection ↦ some b
        | ai_inspection ↦ some b
        | non_auto ↦ some b
      ]
        ≡ some b'
      → (b' ≡ b) ⊎ ((b1 : Box) × (r ≡ some b1) × (b' ≡ show c b1))
  by_mode glue_inspection c b b' r h = inr (shown_case c b b' r h)
  by_mode basic_inspection c b b' r h = inl (sym (some-injective _ _ h))
  by_mode ai_inspection c b b' r h = inl (sym (some-injective _ _ h))
  by_mode non_auto c b b' r h = inl (sym (some-injective _ _ h))

  by_active :
      (t : Bool) (c : Camera) (b b' : Box) (r r' : Option Box)
      → (r' ≡ some b' → (b' ≡ b) ⊎ ((b1 : Box) × (r ≡ some b1) × (b' ≡ show c b1)))
      → (if t then some b else r') ≡ some b'
      → (b' ≡ b) ⊎ ((b1 : Box) × (r ≡ some b1) × (b' ≡ show c b1))
  by_active true c b b' r r' k h = inl (sym (some-injective _ _ h))
  by_active false c b b' r r' k h = k h

  pub handler-cases :
      (c : Camera) (stack : String → ℕ) (b b' : Box)
      → handler os cmds c stack b ≡ some b'
      → (b' ≡ b)
        ⊎ ((b1 : Box) × (flow_case os cmds (at c b.nodes).gi_flow c stack b ≡ some b1)
            × (b' ≡ show c b1))
  unfolding handler
  handler-cases c stack b b' h =
      by_active ((at c b.nodes).active == 0) c b b' _ _ (by_mode (at c b.nodes).auto_mode c b b' _)
        h
