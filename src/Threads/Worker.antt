-- ===== src/Threads/Worker.antt =====
-- One suspend flag with its mutex and condition variable, and the thread that waits on it: the loop
-- of `ips_process_Dual`, which `ios_process` shares, with the number of commands in its task queue.
use vision_box_dual_cam.Base.{ℕ, zero, suc, ◌+◌, ◌-◌, ◌==◌, if◌then◌else◌}

-- Where the thread stands: before `while (!doneFlag)`, before `while (suspendFlag != 0)`, inside
-- `pthread_cond_wait`, in the loop over the queue, before the `if` on the empty queue, before the call
-- that suspends itself, and out of its function.
pub data Phase : Type 0 where
  at_head testing blocked working checking suspending ended : Phase

pub record Gate : Type 0 where
  pub suspend_flag : ℕ
  pub done_flag : ℕ
  pub queued : ℕ
  pub phase : Phase

abbrev pub fresh : Gate
fresh = record { suspend_flag = 0; done_flag = 0; queued = 0; phase = at_head }

-- `pthread_cond_broadcast`: a waiting thread leaves its wait and tests the flag again.
unfoldable pub broadcast : Phase → Phase
broadcast blocked = testing
broadcast p = p

unfoldable pub suspend : Gate → Gate
suspend g = record g { suspend_flag = 1 }

unfoldable pub resume : Gate → Gate
unfolding broadcast
resume g = record g { suspend_flag = 0; phase = broadcast g.phase }

unfoldable pub close : Gate → Gate
unfolding broadcast
close g = record g { suspend_flag = 0; done_flag = 1; phase = broadcast g.phase }

-- Another thread puts a command into the task queue.
unfoldable pub assign : Gate → Gate
assign g = record g { queued = g.queued + 1 }

-- One step of the thread, up to its next access to a flag or the queue. A thread inside
-- `pthread_cond_wait` does nothing by itself.
unfoldable pub turn : Phase → Gate → Gate
turn at_head g = record g { phase = if g.done_flag == 0 then testing else ended }
turn testing g = record g { phase = if g.suspend_flag == 0 then working else blocked }
turn blocked g = g
turn working g =
    if g.queued == 0 then record g { phase = checking } else record g { queued = g.queued - 1 }
turn checking g = record g {
  phase = if g.queued == 0 then (if g.done_flag == 0 then suspending else ended) else at_head;
}
turn suspending g = record g { suspend_flag = 1; phase = at_head }
turn ended g = g

unfoldable pub advance : Gate → Gate
unfolding turn
advance g = turn g.phase g

unfoldable pub advance_times : ℕ → Gate → Gate
advance_times zero g = g
advance_times (suc n) g = advance_times n (advance g)
