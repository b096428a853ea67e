-- ===== src/Threads.antt =====
-- mainCtl/mainCtl.c: how the main thread suspends, resumes and ends the image threads, the IO thread
-- and its own auto mode. A thread waits on a condition variable while its suspend flag is set; the
-- flag, the done flag and the waiting are all under one mutex, so each function is one step.
pub mod Worker
pub mod Wakeup
mod Tests
use vision_box_dual_cam.Base.{ℕ}
use vision_box_dual_cam.Base.Int.{ℤ, failure}
use vision_box_dual_cam.Base.Camera.{Camera, Dual, at, put_at}
use vision_box_dual_cam.Threads.Worker.{Gate, fresh, suspend, resume, close}

pub record Threads : Type 0 where
  pub ip : Dual Gate  -- ip_suspendFlag_Dual, ip_doneFlag_Dual
  pub io : Gate  -- io_suspendFlag, io_doneFlag
  pub mp : Gate  -- mp_suspendFlag, mp_doneFlag
  pub mp_flow_status : ℤ  -- mp_FlowStatus

-- The static initial values: every flag 0, the flow status -1.
abbrev pub initial : Threads
initial = record {
  ip = record { first = fresh; second = fresh };
  io = fresh;
  mp = fresh;
  mp_flow_status = failure;
}

unfoldable pub suspend_ip_dual : Camera → Threads → Threads
suspend_ip_dual id t = record t { ip = put_at id (suspend (at id t.ip)) t.ip }

unfoldable pub resume_ip_dual : Camera → Threads → Threads
resume_ip_dual id t = record t { ip = put_at id (resume (at id t.ip)) t.ip }

unfoldable pub close_ip_dual : Camera → Threads → Threads
close_ip_dual id t = record t { ip = put_at id (close (at id t.ip)) t.ip }

unfoldable pub suspend_io : Threads → Threads
suspend_io t = record t { io = suspend t.io }

unfoldable pub resume_io : Threads → Threads
resume_io t = record t { io = resume t.io }

unfoldable pub close_io : Threads → Threads
close_io t = record t { io = close t.io }

unfoldable pub suspend_mp : Threads → Threads
suspend_mp t = record t { mp = suspend t.mp }

unfoldable pub resume_mp : ℤ → Threads → Threads
resume_mp status t = record t { mp = resume t.mp; mp_flow_status = status }

unfoldable pub close_mp : Threads → Threads
close_mp t = record t { mp = close t.mp }

unfoldable pub get_status_mp : Threads → ℤ
get_status_mp t = t.mp_flow_status

unfoldable pub set_status_mp : ℤ → Threads → Threads
set_status_mp status t = record t { mp_flow_status = status }
