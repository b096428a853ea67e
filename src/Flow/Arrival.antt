-- ===== src/Flow/Arrival.antt =====
-- From a trigger in `innerQ_IOS` to the run that it starts.
use vision_box_dual_cam.Base.{◌≡◌, String, false, List, [], ◌∷◌, streq}
use vision_box_dual_cam.Base.Camera.{Camera}
use vision_box_dual_cam.Flow.State.{trigger}

-- Messages of which none is the camera's trigger.
abbrev pub NoneOf : Camera → List String → Type 0
NoneOf c [] = Unit
NoneOf c (m ∷ ms) = (streq m (trigger c) ≡ false) × NoneOf c ms
