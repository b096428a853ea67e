-- ===== src/Threads/Tests.antt =====
-- Runs of the theorems on the suspend flags.
use vision_box_dual_cam.Base.{◌≡◌, refl}
use vision_box_dual_cam.Threads.Worker.{
  Gate, blocked, suspending, ended, fresh, suspend, resume, close, assign, advance, advance_times,
}
use vision_box_dual_cam.Threads.Wakeup.{
  suspended, advanced, Reach, start, next, NoLostWakeup, Reach-NoLostWakeup, request_stranded,
  close_ends,
}

-- The thread that was suspended at its start, and took two steps.
waiting : Reach (advance (advance (suspend fresh)))
waiting =
    next (next (next start (suspended fresh)) (advanced (suspend fresh)))
      (advanced (advance (suspend fresh)))

Reach-NoLostWakeup_example : NoLostWakeup (advance (advance (suspend fresh)))
Reach-NoLostWakeup_example = Reach-NoLostWakeup waiting

abbrev blocked_gate : Gate
blocked_gate = record { suspend_flag = 1; done_flag = 0; queued = 2; phase = blocked }

abbrev suspending_gate : Gate
suspending_gate = record { suspend_flag = 0; done_flag = 0; queued = 0; phase = suspending }

request_stranded_example :
    let g' = advance_times 3 (resume (assign suspending_gate)) in
    (g'.phase ≡ blocked) × (g'.queued ≡ 1)
request_stranded_example = request_stranded suspending_gate refl refl

close_ends_example : (advance_times 9 (close blocked_gate)).phase ≡ ended
close_ends_example = close_ends blocked_gate 4
