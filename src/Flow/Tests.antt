-- ===== src/Flow/Tests.antt =====
-- Runs of the flow theorems on concrete states.
use vision_box_dual_cam.Base.{ℕ, ◌≡◌, ◌≢◌, refl, ◌⊎◌, String, some, List, [], ◌∷◌, streq, arith}
use vision_box_dual_cam.Base.Int.{pos}
use vision_box_dual_cam.Base.Camera.{camera_1, camera_2}
use vision_box_dual_cam.Node.{
  gi_start, gi_wait_trigger, gi_excute_auto_gi, gi_get_test_result, GiFlow,
}
use vision_box_dual_cam.Algo.Names.{enum_subscribe_cam_reg, trigger_mode_set_param}
use vision_box_dual_cam.Algo.HashMap.{
  create_hash_map, compare_hash_map, insert_rows, insert, find, answer,
}
use vision_box_dual_cam.Io.Dout.Laws.{assigned}
use vision_box_dual_cam.Samples.{sample_os, sample_commands, sample_box}
use vision_box_dual_cam.Flow.{flow_case, flow_wait_trigger, handler, show}
use vision_box_dual_cam.Flow.State.{Box}
use vision_box_dual_cam.Flow.Moves.{flow, handler-flow}
use vision_box_dual_cam.Flow.Runs.{Inspecting, handler_times, handler-Inspecting}
use vision_box_dual_cam.Flow.Triggers.{Handled, handler-Handled}
use vision_box_dual_cam.Flow.Excute.{Running, OneMore, excute-OneMore}
use vision_box_dual_cam.Flow.Start.{Started, start-Started}
use vision_box_dual_cam.Flow.Verdict.{Ended, get_test_result-Ended, status-shared}

-- Whatever is on the stack.
abbrev stack : String → ℕ
stack s = 7

one_not_zero : ◌≢◌ {A = ℕ} 1 0
one_not_zero h = ground arith

first-Inspecting :
    (f : GiFlow) (messages : List String) (wake : ℕ)
    → Inspecting camera_1 f (sample_box f messages wake)
first-Inspecting f messages wake = (one_not_zero, refl, refl)

second-Inspecting :
    (f : GiFlow) (messages : List String) (wake : ℕ)
    → Inspecting camera_2 f (sample_box f messages wake)
second-Inspecting f messages wake = (one_not_zero, refl, refl)

-- The state after a call that starts with a trigger of the other camera at the head of the queue.
after_wait : Box
unfolding show
after_wait = show camera_1 (
    flow_wait_trigger sample_os sample_commands camera_1 stack
      (sample_box gi_wait_trigger ("Din_Trigger_Dual" ∷ []) 0))

wait_call :
    handler sample_os sample_commands camera_1 stack
      (sample_box gi_wait_trigger ("Din_Trigger_Dual" ∷ []) 0)
    ≡ some after_wait
unfolding flow_case after_wait
wait_call =
    handler-Inspecting sample_os sample_commands camera_1 gi_wait_trigger stack
      (sample_box gi_wait_trigger ("Din_Trigger_Dual" ∷ []) 0)
      (first-Inspecting gi_wait_trigger ("Din_Trigger_Dual" ∷ []) 0)

handler-flow_example :
    (flow camera_1 after_wait ≡ gi_wait_trigger) ⊎ (flow camera_1 after_wait ≡ gi_excute_auto_gi)
handler-flow_example =
    handler-flow sample_os sample_commands camera_1 stack
      (sample_box gi_wait_trigger ("Din_Trigger_Dual" ∷ []) 0) after_wait wait_call

handler-Handled_example : Handled camera_1 ("Din_Trigger_Dual" ∷ []) after_wait.inner.ios
handler-Handled_example =
    handler-Handled sample_os sample_commands camera_1 stack
      (sample_box gi_wait_trigger ("Din_Trigger_Dual" ∷ []) 0) after_wait ((camera_2, refl), tt)
      wait_call

start-Started_example :
    (b : Box) × (handler sample_os sample_commands camera_1 stack
        (sample_box gi_start ("Din_Trigger" ∷ []) 1)
      ≡ some b)
    × Started sample_os sample_commands
        (assigned (sample_box gi_start ("Din_Trigger" ∷ []) 1).nodes.first "AutoDone")
        camera_1
        (sample_box gi_start ("Din_Trigger" ∷ []) 1)
        b
start-Started_example =
    start-Started sample_os sample_commands camera_1 stack
      (sample_box gi_start ("Din_Trigger" ∷ []) 1)
      (first-Inspecting gi_start ("Din_Trigger" ∷ []) 1)

abbrev two_triggers : List String
two_triggers = "Din_Trigger_Dual" ∷ "Din_Trigger" ∷ []

command_row :
    compare_hash_map trigger_mode_set_param (create_hash_map enum_subscribe_cam_reg []) ≡ pos 1
unfolding compare_hash_map create_hash_map enum_subscribe_cam_reg insert_rows insert find answer
    streq
command_row = refl

excute-OneMore_example :
    (b : Box) × (handler_times sample_os sample_commands 3 camera_1 stack
        (sample_box gi_excute_auto_gi [] 0)
      ≡ some b)
    × Running sample_os sample_commands camera_1 b
    × OneMore sample_os sample_commands camera_1 (sample_box gi_excute_auto_gi [] 0) b
excute-OneMore_example =
    excute-OneMore sample_os sample_commands 2 camera_1 stack (sample_box gi_excute_auto_gi [] 0)
      (first-Inspecting gi_excute_auto_gi [] 0, (0, refl)) refl command_row

get_test_result-Ended_example :
    (b : Box) × (handler sample_os sample_commands camera_1 stack
        (sample_box gi_get_test_result [] 1)
      ≡ some b)
    × Ended camera_1 "PASS" (sample_box gi_get_test_result [] 1) b
get_test_result-Ended_example =
    get_test_result-Ended sample_os sample_commands camera_1 stack
      (sample_box gi_get_test_result [] 1) (first-Inspecting gi_get_test_result [] 1)

-- Both cameras run, and the status is 1.
abbrev done_box : Box
done_box =
    let b : Box = sample_box gi_excute_auto_gi [] 1 in
    record b { threads = record b.threads { mp_flow_status = pos 1 } }

status-shared_example :
    (b1 : Box) × (b2 : Box) × (handler sample_os sample_commands camera_1 stack done_box ≡ some b1)
    × (handler sample_os sample_commands camera_2 stack b1 ≡ some b2)
    × (b2.nodes.first.gi_flow ≡ gi_get_test_result)
    × (b2.nodes.second.gi_flow ≡ gi_get_test_result)
status-shared_example =
    status-shared sample_os sample_commands stack done_box 1
      (first-Inspecting gi_excute_auto_gi [] 1) (second-Inspecting gi_excute_auto_gi [] 1)
      one_not_zero one_not_zero refl (omega arith)
