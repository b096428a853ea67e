-- ===== src/Flow/World.antt =====
-- The auto mode with everything that writes its shared state: the two handlers in the main loop, the trigger
-- thread, the image threads at the end of a run, and the MQTT thread with a verdict.
use vision_box_dual_cam.Base.{ℕ, ◌≡◌, ◌≤◌, String, Option, some}
use vision_box_dual_cam.Base.Int.{ℤ}
use vision_box_dual_cam.Base.Camera.{Camera, Dual}
use vision_box_dual_cam.Node.{ProcessNode}
use vision_box_dual_cam.Queue.Inner.{ios_en_q, ips_dual_en_q}
use vision_box_dual_cam.Algo.Assign.{Commands}
use vision_box_dual_cam.Threads.{resume_mp}
use vision_box_dual_cam.Io.Sysfs.{Os}
use vision_box_dual_cam.Io.Report.{ReportArgs, report_test_result}
use vision_box_dual_cam.Flow.State.{Box, trigger}
use vision_box_dual_cam.Flow.{process_flow_handler, process_flow_handler_dual}
use vision_box_dual_cam.Flow.Triggers.{AllTriggers}

-- The trigger thread saw an edge.
unfoldable pub triggered : Camera → Box → Box
triggered c b = record b { inner = (ios_en_q (trigger c) b.inner).1 }

-- The end of a run in `ips_process_Dual`: the message for the handler, and the status.
unfoldable pub run_ended : Camera → String → ℤ → Box → Box
run_ended c msg status b = record b {
  inner = (ips_dual_en_q c msg b.inner).1;
  threads = resume_mp status b.threads;
}

module _ {Json : Type 0} (os : Os) (cmds : Commands Json) where
  -- One step of one of the threads.
  pub data Step : Box → Box → Type 0 where
    first_handled :
        (stack : String → ℕ) (b b' : Box)
        → process_flow_handler os cmds stack b ≡ some b'
        → Step b b'
    second_handled :
        (stack : String → ℕ) (b b' : Box)
        → process_flow_handler_dual os cmds stack b ≡ some b'
        → Step b b'
    edge_seen : (c : Camera) (b : Box) → Step b (triggered c b)
    inspected :
        (c : Camera) (msg : String) (status : ℤ) (b : Box) → Step b (run_ended c msg status b)
    judged :
        (args : Option ReportArgs) (b : Box) (nodes : Dual ProcessNode)
        → report_test_result args b.nodes ≡ some nodes
        → Step b (record b { nodes = nodes })

  pub data Reach (start : Box) : Box → Type 0 where
    here : Reach start start
    next : {b b' : Box} → Reach start b → Step b b' → Reach start b'

  -- The queue holds triggers only, and the display counter is within its target.
  abbrev pub Sound : Box → Type 0
  Sound b = AllTriggers b.inner.ios × (b.shown.counter ≤ 1000)
