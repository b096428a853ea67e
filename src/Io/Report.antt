-- ===== src/Io/Report.antt =====
-- iosCtl/IOS_CompFunction.c: the verdict that the web backend sends, `IO_MqttParse_REPORT_TEST_RESULT`, once
-- the JSON library has read the message. `none` is a copy from a null pointer or past the end of
-- an array.
use vision_box_dual_cam.Base.{
  ℕ, ◌%◌, ◌<◌, ltb, Option, none, some, String, codes, length, ◌==◌, ◌||◌, if◌then◌else◌, ◌≡◌, ◌⊎◌,
  arith,
}
use vision_box_dual_cam.Base.Camera.{Dual}
use vision_box_dual_cam.Node.{ProcessNode}

-- What the JSON library finds in "args": the text of "Result" and the number of "CameraId".
pub record ReportArgs : Type 0 where
  pub result : Option String
  pub camera_id : Option ℕ

-- `strcpy(TestResult, ...)`, an array of 8 characters.
unfoldable pub copy_result : Option String → ProcessNode → Option ProcessNode
copy_result none n = none
copy_result (some r) n =
    if ltb (length (codes r)) 8 then some (record n { test_result = r }) else none

-- The tests on `CameraId`, a `char`: both cameras' branches copy into `Process_Node_Dual`.
unfoldable pub copy_for : Option ℕ → Option String → Dual ProcessNode → Option (Dual ProcessNode)
unfolding copy_result
copy_for none r d = some d
copy_for (some i) r d =
    if i % 256 == 1 || i % 256 == 2
    then elim (copy_result r d.second) [ some n ↦ some (record d { second = n }) | none ↦ none ]
    else some d

unfoldable pub report_test_result : Option ReportArgs → Dual ProcessNode → Option (Dual ProcessNode)
unfolding copy_result copy_for
report_test_result none d = none
report_test_result (some a) d = elim a.result [
  | some r ↦ elim (copy_result (some r) d.first) [
    | some n ↦ copy_for a.camera_id a.result (record d { first = n })
    | none ↦ none
  ]
  | none ↦ copy_for a.camera_id a.result d
]

-- A verdict of at most seven characters that names a camera, either of the two, is put into the nodes of
-- both cameras.
report_test_result-both :
    (r : String) (i : ℕ) (d : Dual ProcessNode)
    → (i ≡ 1) ⊎ (i ≡ 2)
    → length (codes r) < 8
    → report_test_result (some (record { result = some r; camera_id = some i })) d
      ≡ some (record {
        first = record d.first { test_result = r };
        second = record d.second { test_result = r };
      })
unfolding report_test_result copy_result copy_for
report_test_result-both r i d c h = ground arith
