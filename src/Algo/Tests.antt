-- ===== src/Algo/Tests.antt =====
-- Runs of the theorems on commands.
use vision_box_dual_cam.Base.{
  ◌≡◌, ◌↔◌, refl, List, [], ◌∷◌, ◌++◌, some, String, true, streq, get_elem?,
}
use vision_box_dual_cam.Base.Int.{pos, success}
use vision_box_dual_cam.Base.Camera.{camera_1, camera_2, at}
use vision_box_dual_cam.Queue.Algo.{Task}
use vision_box_dual_cam.Queue.Json.{JsonInfo}
use vision_box_dual_cam.Samples.{sample_algo, sample_commands}
use vision_box_dual_cam.Algo.Names.{enum_subscribe_cam_reg}
use vision_box_dual_cam.Algo.HashMap.{
  create_hash_map, compare_hash_map, insert_rows, insert, find, answer,
}
use vision_box_dual_cam.Algo.HashMap.Laws.{distinct, compare-create}
use vision_box_dual_cam.Algo.Assign.{Algo, method_assign_dual}
use vision_box_dual_cam.Algo.Assign.Buffers.{json_of, method_assign_dual-json}

abbrev no_info : JsonInfo
no_info = record { algo_id = 0; cmd = ""; json_buf = "" }

abbrev three_names : List String
three_names = "A" ∷ "B" ∷ "C" ∷ []

three_differ : distinct three_names ≡ true
unfolding distinct streq
three_differ = refl

compare-create_example :
    (compare_hash_map "C" (create_hash_map three_names []) ≡ pos 2)
    ↔ (get_elem? three_names 2 ≡ some "C")
compare-create_example = compare-create three_names "C" 2 three_differ

row_of_trigger_mode :
    compare_hash_map "TRIGGERMODE_SET_PARAM" (create_hash_map enum_subscribe_cam_reg []) ≡ pos 1
unfolding compare_hash_map create_hash_map enum_subscribe_cam_reg insert_rows insert find answer
    streq
row_of_trigger_mode = refl

method_assign_dual-json_example :
    (b1 : Algo) × (b2 : Algo) × (t : Task) × (u : Task) × (method_assign_dual sample_commands
        "TRIGGERMODE_SET_PARAM" "1" camera_1 sample_algo
      ≡ some (success, b1))
    × (method_assign_dual sample_commands "TRIGGERMODE_SET_PARAM" "2" camera_2 b1
        ≡ some (success, b2))
    × (at camera_1 b2.queues.tasks_dual ≡ [] ++ (t ∷ []))
    × (at camera_2 b2.queues.tasks_dual ≡ [] ++ (u ∷ []))
    × (json_of t b1 ≡ "1")
    × (json_of t b2 ≡ "2")
    × (json_of u b2 ≡ "2")
method_assign_dual-json_example =
    method_assign_dual-json sample_commands "TRIGGERMODE_SET_PARAM" "1" "2" camera_1 sample_algo 1
      row_of_trigger_mode refl
