-- ===== src/Threads/Wakeup.antt =====
-- What the suspend flags guarantee to the threads that wait on them, and what they do not.
use vision_box_dual_cam.Base.{◌≡◌, refl, ◌∙◌, ◌≢◌, ℕ, zero, suc, ◌+◌, ap, arith}
use vision_box_dual_cam.Threads.Worker.{
  Gate, Phase, testing, blocked, working, checking, suspending, ended, fresh, suspend, resume,
  close, assign, advance, advance_times,
}

-- What can happen to a gate: a call by any thread, or a step of the thread that waits there.
pub data Step : Gate → Gate → Type 0 where
  suspended : (g : Gate) → Step g (suspend g)
  resumed : (g : Gate) → Step g (resume g)
  closed : (g : Gate) → Step g (close g)
  assigned : (g : Gate) → Step g (assign g)
  advanced : (g : Gate) → Step g (advance g)

pub data Reach : Gate → Type 0 where
  start : Reach fresh
  next : {g h : Gate} → Reach g → Step g h → Reach h

abbrev pub NoLostWakeup : Gate → Type 0
NoLostWakeup g = g.phase ≡ blocked → g.suspend_flag ≢ 0

Step-NoLostWakeup : {g h : Gate} → Step g h → NoLostWakeup g → NoLostWakeup h
unfolding suspend resume close assign advance
Step-NoLostWakeup (suspended g) n = ground arith
Step-NoLostWakeup (resumed g) n = ground arith
Step-NoLostWakeup (closed g) n = ground arith
Step-NoLostWakeup (assigned g) n = ground arith
Step-NoLostWakeup (advanced g) n = ground arith

-- In every state that the threads can reach, in any interleaving, a thread that waits in
-- `pthread_cond_wait` finds its suspend flag set: no resume or close goes by while it waits.
pub Reach-NoLostWakeup : {g : Gate} → Reach g → NoLostWakeup g
Reach-NoLostWakeup start = λ h. cc
Reach-NoLostWakeup (next r st) = Step-NoLostWakeup st (Reach-NoLostWakeup r)

advance_times-ended : (n : ℕ) (g : Gate) → g.phase ≡ ended → (advance_times n g).phase ≡ ended
unfolding advance_times advance
advance_times-ended zero g e = e
advance_times-ended (suc n) g e = advance_times-ended n (advance g) (ground arith)

advance_times-suc : (n : ℕ) (g : Gate) → advance_times (suc n) g ≡ advance_times n (advance g)
unfolding advance_times
advance_times-suc n g = refl

-- One step out of `k`, when it is known where it leads.
step_to :
    (g : Gate) (k n : ℕ) {g' : Gate}
    → k ≡ suc n
    → advance g ≡ g'
    → advance_times k g ≡ advance_times n g'
step_to g k n e s = rw e (advance_times-suc n g ∙ ap (advance_times n) s)

advance-empty :
    (g : Gate)
    → g.phase ≡ working
    → g.queued ≡ 0
    → advance g ≡ record g { queued = 0; phase = checking }
unfolding advance
advance-empty g p e = ground arith

advance-busy :
    (q : ℕ) (g : Gate) → g.phase ≡ working → g.queued ≡ suc q → advance g ≡ record g { queued = q }
unfolding advance
advance-busy q g p e = ground arith

-- The loop over the queue: a working thread takes every command, and then looks at the queue again.
drains :
    (q : ℕ) (g : Gate) (n : ℕ)
    → g.phase ≡ working
    → g.queued ≡ q
    → advance_times (suc q + n) g ≡ advance_times n (record g { queued = 0; phase = checking })
unfolding advance_times
drains zero g n p e = step_to g (suc zero + n) n (omega arith) (advance-empty g p e)
drains (suc q) g n p e =
    step_to g (suc (suc q) + n) (suc q + n) (omega arith) (advance-busy q g p e)
    ∙ drains q (record g { queued = q }) n p refl

-- The emptiness test and the self-suspension are two steps. A command that is put into the queue
-- between them, with its resume, is not served: the thread suspends itself all the same, and waits
-- with the command in its queue until somebody resumes it again.
pub request_stranded :
    (g : Gate)
    → g.phase ≡ suspending
    → g.done_flag ≡ 0
    → let g' = advance_times 3 (resume (assign g)) in
      (g'.phase ≡ blocked) × (g'.queued ≡ g.queued + 1)
unfolding advance_times advance resume assign
request_stranded g h d = ground arith

-- A closed gate whose thread is not in its wait.
record IsClosed (g : Gate) : Type 0 where
  told : g.done_flag ≡ 1
  free : g.suspend_flag ≡ 0
  awake : g.phase ≢ blocked

working_ends :
    (g : Gate) (n : ℕ)
    → g.phase ≡ working
    → g.done_flag ≡ 1
    → (advance_times (g.queued + 2 + n) g).phase ≡ ended
working_ends g n p d =
    let emptied : Gate = record g { queued = 0; phase = checking } in
    let steps : g.queued + 2 + n ≡ suc g.queued + suc n = omega arith in
    rw (steps, drains g.queued g (suc n) p refl)
      (rw (advance_times-suc n emptied) (advance_times-ended n (advance emptied) (checked d)))
  where
    checked : g.done_flag ≡ 1 → (advance (record g { queued = 0; phase = checking })).phase ≡ ended
    checked d = unfold advance in ground arith

two_steps_end :
    (g : Gate)
    → IsClosed g
    → g.phase ≢ working
    → g.phase ≢ testing
    → (advance (advance g)).phase ≡ ended
unfolding advance
two_steps_end g c w t = ground arith

advance-testing :
    (g : Gate) → g.phase ≡ testing → g.suspend_flag ≡ 0 → advance g ≡ record g { phase = working }
unfolding advance
advance-testing g e f = ground arith

closed_ends :
    (p : Phase) (g : Gate) (n : ℕ)
    → g.phase ≡ p
    → IsClosed g
    → (advance_times (g.queued + 3 + n) g).phase ≡ ended
closed_ends working g n e c =
    let steps : g.queued + 3 + n ≡ g.queued + 2 + suc n = omega arith in
    rw steps (working_ends g (suc n) e c.told)
closed_ends testing g n e c =
    let steps : g.queued + 3 + n ≡ suc (g.queued + 2 + n) = omega arith in
    rw (steps, advance_times-suc (g.queued + 2 + n) g, advance-testing g e c.free)
      (working_ends (record g { phase = working }) n refl c.told)
closed_ends p g n e c =
    let steps : g.queued + 3 + n ≡ suc (suc (g.queued + 1 + n)) = omega arith in
    rw (steps, advance_times-suc (suc (g.queued + 1 + n)) g)
      (rw (advance_times-suc (g.queued + 1 + n) (advance g)) (
        advance_times-ended (g.queued + 1 + n) (advance (advance g))
          (two_steps_end g c (λ h. cc) (λ h. cc))))

-- A close is never lost: so many steps of the thread as it has commands in its queue, and three more,
-- take it out of its loop, wherever it stood when it was closed, and it stays out.
pub close_ends : (g : Gate) (n : ℕ) → (advance_times (g.queued + 3 + n) (close g)).phase ≡ ended
unfolding close
close_ends g n = closed_ends (close g).phase (close g) n refl (ground arith)
