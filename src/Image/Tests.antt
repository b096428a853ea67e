-- ===== src/Image/Tests.antt =====
-- Runs of the theorems on a camera whose method fails, and on a recording of two commands.
use vision_box_dual_cam.Base.{List, ℕ, ◌≡◌, ◌≢◌, ◌⊎◌, [], ◌∷◌, String, true, false, arith}
use vision_box_dual_cam.Base.Int.{pos}
use vision_box_dual_cam.Base.Camera.{camera_1, camera_2}
use vision_box_dual_cam.Node.{gi_excute_auto_gi}
use vision_box_dual_cam.Queue.Inner.{no_messages}
use vision_box_dual_cam.Queue.Algo.{Task, ExpansionMode, no_mode, no_parm, no_tasks}
use vision_box_dual_cam.Threads.{initial}
use vision_box_dual_cam.Flow.State.{Box}
use vision_box_dual_cam.Samples.{sample_box}
use vision_box_dual_cam.Image.{Methods, Image}
use vision_box_dual_cam.Image.Auto.{auto_run}
use vision_box_dual_cam.Image.Laws.{Told, done, refused, broken, auto_run-Told}
use vision_box_dual_cam.Image.Loop.{run_queue, in_step, left, run_queue-take_tasks}
use vision_box_dual_cam.Image.Stuck.{take_tasks}

abbrev stack : String → ℕ
stack s = 7

-- Methods that answer the number in memory, 0 for success.
abbrev sample_methods : Methods ℕ
sample_methods = record {
  algo_mthd = λ id h g t w. (pos w, w);
  to_parm = λ t w. (t, w);
  to_all = λ t w. w;
  reset_all_param = λ w. w;
  release_img = λ w. w;
  ret_state = λ t w. true;
  recover = λ id w. w;
}

abbrev command : ℕ → Task
command m = record { method = m; filled = no_parm }

abbrev active : ExpansionMode
active = record no_mode { trigger_mode_activat = 1 }

-- The trigger mode is on, a capture and a measurement are recorded, and the methods answer `w`.
abbrev recording : ℕ → Image ℕ
recording w = record {
  enb_auto_running_mode = true;
  prev_auto_running_mode = true;
  enb_auto_running_mode_activate = false;
  prev_auto_running_mode_activate = false;
  enb_trigger_mode = true;
  prev_trigger_mode = true;
  enb_trigger_mode_activate = false;
  recorded = command 5 ∷ command 32 ∷ [];
  inner = no_messages;
  threads = initial;
  replies = [];
  memory = w;
}

auto_run-Told_example :
    (((◌≡◌ {A = ℕ} 1 0) ⊎ ((recording 0).recorded ≡ []))
      × Told sample_methods camera_1 refused
          (recording 0)
          (auto_run sample_methods camera_1 (command 1) active (recording 0)))
    ⊎ ((◌≢◌ {A = ℕ} 1 0)
        × ((recording 0).recorded ≢ [])
        × (Told sample_methods camera_1 broken
              (recording 0)
              (auto_run sample_methods camera_1 (command 1) active (recording 0))
            ⊎ Told sample_methods camera_1 done
                (recording 0)
                (auto_run sample_methods camera_1 (command 1) active (recording 0))))
auto_run-Told_example = auto_run-Told sample_methods camera_1 (command 1) active (recording 0)

abbrev waiting_box : Box
waiting_box = sample_box gi_excute_auto_gi [] 1

abbrev two_commands : List (Task × ExpansionMode)
two_commands = (command 5, no_mode) ∷ (command 33, no_mode) ∷ []

run_queue-take_tasks_example :
    run_queue sample_methods 2 camera_2 active
      (recording 1)
      (in_step camera_2 two_commands no_tasks)
    ≡ (
      (take_tasks sample_methods camera_2 two_commands (recording 1)).1,
      in_step camera_2 (left sample_methods camera_2 two_commands (recording 1)) no_tasks,
    )
run_queue-take_tasks_example =
    run_queue-take_tasks sample_methods 2 camera_2 active two_commands (recording 1) no_tasks
      (omega arith)
