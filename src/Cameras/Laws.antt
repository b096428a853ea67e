-- ===== src/Cameras/Laws.antt =====
-- The results of opening and closing a camera, and the handle that is left.
use vision_box_dual_cam.Base.{
  ℕ, ◌+◌, ◌≡◌, Bool, true, false, Option, none, some, if◌then◌else◌, arith,
}
use vision_box_dual_cam.Base.Int.{success, failure}
use vision_box_dual_cam.Base.Camera.{Camera, other, at}
use vision_box_dual_cam.Cameras.{
  Answers, Handles, is_zero, create, camera_init_dual, camera_release_dual,
}

abbrev pub is_set : Option ℕ → Bool
is_set (some h) = true
is_set none = false

-- Opening a camera returns 0 exactly if a handle is there afterwards, and -1 if none is, whatever the
-- driver answers; the handle of the other camera and of the single camera stay as they were.
camera_init_dual-result :
    (a : Answers) (id : Camera) (s : Handles)
    → let (ret, s') = camera_init_dual a id s in
      (ret ≡ (if is_set (at id s'.gige_dual) then success else failure))
      × (at (other id) s'.gige_dual ≡ at (other id) s.gige_dual)
      × (s'.gige ≡ s.gige)
unfolding camera_init_dual create is_zero camera_release_dual
camera_init_dual-result a id s = ground arith

-- Closing a camera never leaves a handle, and does not give its object back: opened and closed again with a
-- driver that agrees to everything, a camera without a handle has none, and one more object is there.
camera_release_dual-camera_init_dual :
    (a : Answers) (id : Camera) (s : Handles)
    → at id s.gige_dual ≡ none
    → a.creates ≡ true
    → is_zero a.init ≡ true
    → is_zero a.release ≡ true
    → let s1 = (camera_init_dual a id s).1 in
      let (ret, s2) = camera_release_dual a id s1 in
      (ret ≡ success) × (at id s2.gige_dual ≡ none) × (s2.created ≡ s.created + 1)
unfolding camera_init_dual create camera_release_dual
camera_release_dual-camera_init_dual a id s h c i r = ground arith
