-- ===== src/Flow/Cycle.antt =====
-- One whole inspection of a camera, from its start state back to it.
use vision_box_dual_cam.Base.{◌≡◌, refl, String, [], ◌∷◌, ◌++◌, if◌then◌else◌}
use vision_box_dual_cam.Base.Camera.{Camera, camera_1, camera_2, at, put_at}
use vision_box_dual_cam.Node.{gi_start}
use vision_box_dual_cam.Io.Sysfs.{Os}
use vision_box_dual_cam.Io.Dout.Laws.{assigned}
use vision_box_dual_cam.Algo.Assign.{Commands}
use vision_box_dual_cam.Flow.State.{Box, autodone_resp}

module _ {Json : Type 0} (os : Os) (cmds : Commands Json) where
  -- The verdict arrives in the camera's node.
  abbrev pub with_verdict : Camera → String → Box → Box
  with_verdict c v b = record b {
    nodes = put_at c (record (at c b.nodes) { test_result = v }) b.nodes;
  }

  verdict_there :
      (c : Camera) (v : String) (b : Box) → (at c (with_verdict c v b).nodes).test_result ≡ v
  verdict_there camera_1 v b = refl
  verdict_there camera_2 v b = refl

  -- What the last round leaves, once the result text is known to be a verdict.
  abbrev pub Reported : Camera → Box → Box → Type 0
  Reported c b b' =
      ((at c b'.nodes).gi_flow ≡ gi_start)
      × (b'.published
          ≡ b.published
            ++ (if assigned (at c b.nodes) "AutoDone" then autodone_resp c ∷ [] else []))
