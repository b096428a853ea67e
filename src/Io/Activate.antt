-- ===== src/Io/Activate.antt =====
-- iosCtl/IOS_CompFunction.c: the command that starts and stops the inspection,
-- `IO_MqttParse_AUTO_TEST_SET_MODE`, once the JSON library has read the message. `none` is a copy from a
-- null pointer.
use vision_box_dual_cam.Base.{
  ℕ, ◌%◌, Option, none, some, ◌==◌, ◌||◌, if◌then◌else◌, ◌≡◌, ◌⊎◌, arith,
}
use vision_box_dual_cam.Base.Camera.{Dual}
use vision_box_dual_cam.Node.{ProcessNode}

-- What the JSON library finds in "args": the numbers of "onoffSetting" and of "CameraId".
pub record ActiveArgs : Type 0 where
  pub onoff_setting : Option ℕ
  pub camera_id : Option ℕ

-- `json_object_get_int`, which is 0 for a null pointer, kept in a byte.
unfoldable pub get_int : Option ℕ → ℕ
get_int none = 0
get_int (some n) = n % 256

-- The assignment to `Active` of both nodes, where there is a setting.
unfoldable pub set_both : Option ℕ → Dual ProcessNode → Dual ProcessNode
unfolding get_int
set_both none d = d
set_both (some n) d = record {
  first = record d.first { active = get_int (some n) };
  second = record d.second { active = get_int (some n) };
}

-- The tests on `CameraId`, a `char`: both cameras' branches assign to `Process_Node_Dual`.
unfoldable pub set_for : Option ℕ → Option ℕ → Dual ProcessNode → Dual ProcessNode
unfolding get_int
set_for none n d = d
set_for (some i) n d =
    if i % 256 == 1 || i % 256 == 2
    then record d { second = record d.second { active = get_int n } }
    else d

unfoldable pub auto_test_set_mode : Option ActiveArgs → Dual ProcessNode → Option (Dual ProcessNode)
unfolding set_both set_for
auto_test_set_mode none d = none
auto_test_set_mode (some a) d =
    some (set_for a.camera_id a.onoff_setting (set_both a.onoff_setting d))

-- A message with a setting puts it into the nodes of both cameras, whichever camera it names, and whether it
-- names one or not. A message without a setting that names a camera, either of the two, stops the second
-- camera and leaves the first.
auto_test_set_mode-both :
    (n i : ℕ) (c : Option ℕ) (d : Dual ProcessNode)
    → (i ≡ 1) ⊎ (i ≡ 2)
    → (auto_test_set_mode (some (record { onoff_setting = some n; camera_id = c })) d
        ≡ some (record {
          first = record d.first { active = n % 256 };
          second = record d.second { active = n % 256 };
        }))
      × (auto_test_set_mode (some (record { onoff_setting = none; camera_id = some i })) d
          ≡ some (record d { second = record d.second { active = 0 } }))
unfolding auto_test_set_mode set_both set_for get_int
auto_test_set_mode-both n i c d h = ground arith
