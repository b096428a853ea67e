-- ===== src/Flow/Runs.antt =====
-- Repeated calls of one camera's handler, and a node that is in the auto glue inspection.
use vision_box_dual_cam.Base.{ℕ, zero, suc, ◌≡◌, ◌≢◌, refl, String, Option, some, none, arith}
use vision_box_dual_cam.Base.Camera.{Camera, at}
use vision_box_dual_cam.Node.{GiFlow, glue_inspection}
use vision_box_dual_cam.Io.Sysfs.{Os}
use vision_box_dual_cam.Algo.Assign.{Commands}
use vision_box_dual_cam.Flow.State.{Box}
use vision_box_dual_cam.Flow.{handler, flow_case, show}

-- The camera's node is active, in the glue inspection, and in the given state of it.
abbrev pub Inspecting : Camera → GiFlow → Box → Type 0
Inspecting c f b =
    ((at c b.nodes).active ≢ 0)
    × ((at c b.nodes).auto_mode ≡ glue_inspection)
    × ((at c b.nodes).gi_flow ≡ f)

abbrev pub then_show : Camera → Option Box → Option Box
then_show c (some b) = some (show c b)
then_show c none = none

module _ {Json : Type 0} (os : Os) (cmds : Commands Json) where
  -- As many calls of the camera's handler, the main loop's rounds, while nothing else writes.
  unfoldable pub handler_times : ℕ → Camera → (stack : String → ℕ) → Box → Option Box
  handler_times zero c stack b = some b
  handler_times (suc n) c stack b = elim (handler os cmds c stack b) [
    | some b1 ↦ handler_times n c stack b1
    | none ↦ none
  ]

  pub handler-Inspecting :
      (c : Camera) (f : GiFlow) (stack : String → ℕ) (b : Box)
      → Inspecting c f b
      → handler os cmds c stack b ≡ then_show c (flow_case os cmds f c stack b)
  unfolding handler
  handler-Inspecting c f stack b h = ground arith

  pub handler_times-suc :
      (n : ℕ) (c : Camera) (stack : String → ℕ) (b b1 : Box)
      → handler os cmds c stack b ≡ some b1
      → handler_times (suc n) c stack b ≡ handler_times n c stack b1
  unfolding handler_times
  handler_times-suc n c stack b b1 h = rw (handler_times, h) refl
