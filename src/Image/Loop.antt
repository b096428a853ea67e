-- ===== src/Image/Loop.antt =====
-- The loop of `ips_process_Dual` over the camera's queue of tasks, beside which it reads the queue of modes.
use vision_box_dual_cam.Base.{
  ℕ, zero, suc, ◌≤◌, ◌≡◌, refl, ◌∙◌, List, [], ◌∷◌, length, Option, some, none, if◌then◌else◌,
  arith,
}
use vision_box_dual_cam.Base.Camera.{Camera, camera_1, camera_2, put_at}
use vision_box_dual_cam.Queue.Deque.{de_q, is_empty}
use vision_box_dual_cam.Queue.Algo.{
  Task, ExpansionMode, AlgoQueues, tasks_dual_is_empty, tasks_dual_de_q, ex_mode_dual_de_q,
}
use vision_box_dual_cam.Image.{Methods, Image}
use vision_box_dual_cam.Image.Normal.{Outcome, continues, breaks, take_task}
use vision_box_dual_cam.Image.Stuck.{take_tasks, firsts}

-- A mode that is not delivered leaves the last one.
unfoldable pub mode_or : ExpansionMode → Option ExpansionMode → ExpansionMode
mode_or m none = m
mode_or m (some m') = m'

abbrev pub seconds : List (Task × ExpansionMode) → List ExpansionMode
seconds [] = []
seconds ((t, m) ∷ ts) = m ∷ seconds ts

-- The two queues of the camera hold these tasks, each with its mode.
abbrev pub in_step : Camera → List (Task × ExpansionMode) → AlgoQueues → AlgoQueues
in_step id ts q = record q {
  tasks_dual = put_at id (firsts ts) q.tasks_dual;
  ex_modes_dual = put_at id (seconds ts) q.ex_modes_dual;
}

module _ {W : Type 0} (methods : Methods W) where
  -- The loop, with `iEnbExMode` as it was left. The queue of tasks is not empty where it is read, since
  -- no other thread reads it.
  unfoldable pub run_queue :
      (fuel : ℕ) → Camera → ExpansionMode → Image W → AlgoQueues → Image W × AlgoQueues
  unfolding mode_or
  run_queue zero id m s q = (s, q)
  run_queue (suc n) id m s q =
      let (res, task, q1) = tasks_dual_de_q id q in
      let (res2, mode, q2) = ex_mode_dual_de_q id q1 in
      if tasks_dual_is_empty id q then (s, q) else elim task [
        | some t ↦
            (let (o, s1) = take_task methods id t (mode_or m mode) s in
              let rest = run_queue n id (mode_or m mode) s1 q2 in
              elim o [ continues ↦ rest | breaks ↦ (s1, q2) ])
        | none ↦ (s, q2)
      ]

  -- What a round that leaves the loop does not take.
  unfoldable pub left : Camera → List (Task × ExpansionMode) → Image W → List (Task × ExpansionMode)
  left id [] s = []
  left id ((t, m) ∷ ts) s =
      let (o, s1) = take_task methods id t m s in
      let rest = left id ts s1 in elim o [ continues ↦ rest | breaks ↦ ts ]

  empty_queue :
      (n : ℕ) (id : Camera) (m : ExpansionMode) (s : Image W) (q : AlgoQueues)
      → run_queue n id m s (in_step id [] q) ≡ (s, in_step id [] q)
  unfolding run_queue tasks_dual_is_empty is_empty
  empty_queue zero id m s q = refl
  empty_queue (suc n) camera_1 m s q = refl
  empty_queue (suc n) camera_2 m s q = refl

  one_round :
      (n : ℕ) (id : Camera) (m0 m : ExpansionMode) (t : Task) (ts : List (Task × ExpansionMode))
      (s : Image W) (q : AlgoQueues)
      → run_queue (suc n) id m0 s (in_step id ((t, m) ∷ ts) q)
        ≡ elim (take_task methods id t m s).0 as (λ _. Image W × AlgoQueues) [
          | continues ↦ run_queue n id m (take_task methods id t m s).1 (in_step id ts q)
          | breaks ↦ ((take_task methods id t m s).1, in_step id ts q)
        ]
  unfolding run_queue mode_or tasks_dual_is_empty tasks_dual_de_q ex_mode_dual_de_q de_q is_empty
  one_round n camera_1 m0 m t ts s q = refl
  one_round n camera_2 m0 m t ts s q = refl

  joined :
      (id : Camera) (q : AlgoQueues) (p : Outcome × Image W) (go : Image W × AlgoQueues)
      (rest : Outcome × Image W) (l us : List (Task × ExpansionMode))
      → go ≡ (rest.1, in_step id l q)
      → elim p.0 as (λ _. Image W × AlgoQueues) [ continues ↦ go | breaks ↦ (p.1, in_step id us q) ]
        ≡ (
          (elim p.0 as (λ _. Outcome × Image W) [ continues ↦ rest | breaks ↦ (breaks, p.1) ]).1,
          in_step id
              (elim p.0 as (λ _. List (Task × ExpansionMode)) [ continues ↦ l | breaks ↦ us ])
              q,
        )
  joined id q (continues, s1) go rest l us h = h
  joined id q (breaks, s1) go rest l us h = refl

  -- Where the camera's two queues are in step, the loop takes the commands in their order, each with the mode
  -- that was queued beside it, until a command fails or the queue is empty, in as many rounds as
  -- there are commands. The two queues are in step after it, too, with what it did not take.
  pub run_queue-take_tasks :
      (n : ℕ) (id : Camera) (m : ExpansionMode) (ts : List (Task × ExpansionMode)) (s : Image W)
      (q : AlgoQueues)
      → length ts ≤ n
      → run_queue n id m s (in_step id ts q)
        ≡ ((take_tasks methods id ts s).1, in_step id (left id ts s) q)
  unfolding take_tasks left
  run_queue-take_tasks n id m [] s q h = empty_queue n id m s q
  run_queue-take_tasks zero id m ((t, m1) ∷ ts) s q h = absurd (none_left h)
    where
      none_left : suc (length ts) ≤ 0 → ⊥
      none_left g = omega arith
  run_queue-take_tasks (suc n) id m ((t, m1) ∷ ts) s q h =
      let s1 = (take_task methods id t m1 s).1 in
      one_round n id m m1 t ts s q
      ∙ joined id q (take_task methods id t m1 s) (run_queue n id m1 s1 (in_step id ts q))
          (take_tasks methods id ts s1) (left id ts s1) ts
          (run_queue-take_tasks n id m1 ts s1 q (omega arith))
