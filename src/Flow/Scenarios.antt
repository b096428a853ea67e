-- ===== src/Flow/Scenarios.antt =====
-- Runs of the theorems on whole inspections.
use vision_box_dual_cam.Base.{ℕ, ◌≡◌, ◌≢◌, refl, String, some, [], ◌∷◌, true, streq, arith}
use vision_box_dual_cam.Base.Int.{pos}
use vision_box_dual_cam.Base.Camera.{camera_1, camera_2}
use vision_box_dual_cam.Node.{gi_start, gi_wait_trigger, gi_excute_auto_gi}
use vision_box_dual_cam.Io.Dout.Laws.{assigned}
use vision_box_dual_cam.Samples.{sample_os, sample_commands, sample_box, sample_node}
use vision_box_dual_cam.Flow.{handler, show, flow_wait_trigger}
use vision_box_dual_cam.Flow.State.{Box}
use vision_box_dual_cam.Flow.Runs.{handler_times}
use vision_box_dual_cam.Flow.Lost.{Waiting, status-Waiting}

abbrev stack : String → ℕ
stack s = 7

one_not_zero : ◌≢◌ {A = ℕ} 1 0
one_not_zero h = ground arith

-- The first camera's run is done, the second camera starts.
abbrev mixed : Box
mixed =
    let b : Box = sample_box gi_start [] 1 in
    record b {
      nodes = record { first = sample_node gi_excute_auto_gi; second = sample_node gi_start };
      threads = record b.threads { mp_flow_status = pos 1 };
    }

output_there : assigned (sample_node gi_start) "AutoDone" ≡ true
unfolding streq
output_there = refl

status-Waiting_example :
    (b1 : Box) × (b2 : Box) × (handler sample_os sample_commands camera_2 stack mixed ≡ some b1)
    × (handler_times sample_os sample_commands 5 camera_1 stack b1 ≡ some b2)
    × Waiting sample_os sample_commands camera_1 b2
status-Waiting_example =
    status-Waiting sample_os sample_commands 5 camera_1 stack mixed (one_not_zero, refl, refl) refl
      (one_not_zero, refl, refl) output_there

abbrev waiting_box : Box
waiting_box = sample_box gi_wait_trigger ("Din_Trigger_Dual" ∷ []) 0

moved : Box
unfolding show
moved = show camera_1 (flow_wait_trigger sample_os sample_commands camera_1 stack waiting_box)
