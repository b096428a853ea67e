-- ===== src/Queue/Algo/Laws.antt =====
-- The task and mode queues fill the queue interface.
use vision_box_dual_cam.Base.{List, ◌≡◌}
use vision_box_dual_cam.Base.Camera.{Camera, camera_1, camera_2, at}
use vision_box_dual_cam.Queue.Deque.Laws.{en_q-push, de_q-pop}
use vision_box_dual_cam.Queue.Fifo
use vision_box_dual_cam.Queue.Interface.{QueueApi, run, run_refines}
use vision_box_dual_cam.Queue.Fifo.{Op}
use vision_box_dual_cam.Queue.Algo.{
  AlgoQueues, Task, ExpansionMode, tasks_en_q, tasks_de_q, ex_mode_en_q, ex_mode_de_q,
  tasks_dual_en_q, tasks_dual_de_q, ex_mode_dual_en_q, ex_mode_dual_de_q,
}

unfoldable pub tasks_api : QueueApi AlgoQueues Task
unfolding tasks_en_q tasks_de_q
tasks_api = record {
  en_q = tasks_en_q;
  de_q = tasks_de_q;
  contents = λ s. s.tasks;
  en_q_lem = λ x s. en_q-push x s.tasks;
  de_q_lem = λ s. de_q-pop s.tasks;
}

unfoldable pub ex_mode_api : QueueApi AlgoQueues ExpansionMode
unfolding ex_mode_en_q ex_mode_de_q
ex_mode_api = record {
  en_q = ex_mode_en_q;
  de_q = ex_mode_de_q;
  contents = λ s. s.ex_modes;
  en_q_lem = λ x s. en_q-push x s.ex_modes;
  de_q_lem = λ s. de_q-pop s.ex_modes;
}

pub tasks_dual_en_q_lem :
    (id : Camera) (x : Task) (s : AlgoQueues)
    → ((tasks_dual_en_q id x s).0, at id (tasks_dual_en_q id x s).1.tasks_dual)
      ≡ Fifo.push x (at id s.tasks_dual)
unfolding tasks_dual_en_q
tasks_dual_en_q_lem camera_1 x s = en_q-push x s.tasks_dual.first
tasks_dual_en_q_lem camera_2 x s = en_q-push x s.tasks_dual.second

pub tasks_dual_de_q_lem :
    (id : Camera) (s : AlgoQueues)
    → (
      (tasks_dual_de_q id s).0,
      (tasks_dual_de_q id s).1,
      at id (tasks_dual_de_q id s).2.tasks_dual,
    )
      ≡ Fifo.pop (at id s.tasks_dual)
unfolding tasks_dual_de_q
tasks_dual_de_q_lem camera_1 s = de_q-pop s.tasks_dual.first
tasks_dual_de_q_lem camera_2 s = de_q-pop s.tasks_dual.second

unfoldable pub tasks_dual_api : Camera → QueueApi AlgoQueues Task
tasks_dual_api id = record {
  en_q = tasks_dual_en_q id;
  de_q = tasks_dual_de_q id;
  contents = λ s. at id s.tasks_dual;
  en_q_lem = tasks_dual_en_q_lem id;
  de_q_lem = tasks_dual_de_q_lem id;
}

pub ex_mode_dual_en_q_lem :
    (id : Camera) (x : ExpansionMode) (s : AlgoQueues)
    → ((ex_mode_dual_en_q id x s).0, at id (ex_mode_dual_en_q id x s).1.ex_modes_dual)
      ≡ Fifo.push x (at id s.ex_modes_dual)
unfolding ex_mode_dual_en_q
ex_mode_dual_en_q_lem camera_1 x s = en_q-push x s.ex_modes_dual.first
ex_mode_dual_en_q_lem camera_2 x s = en_q-push x s.ex_modes_dual.second

pub ex_mode_dual_de_q_lem :
    (id : Camera) (s : AlgoQueues)
    → (
      (ex_mode_dual_de_q id s).0,
      (ex_mode_dual_de_q id s).1,
      at id (ex_mode_dual_de_q id s).2.ex_modes_dual,
    )
      ≡ Fifo.pop (at id s.ex_modes_dual)
unfolding ex_mode_dual_de_q
ex_mode_dual_de_q_lem camera_1 s = de_q-pop s.ex_modes_dual.first
ex_mode_dual_de_q_lem camera_2 s = de_q-pop s.ex_modes_dual.second

unfoldable pub ex_mode_dual_api : Camera → QueueApi AlgoQueues ExpansionMode
ex_mode_dual_api id = record {
  en_q = ex_mode_dual_en_q id;
  de_q = ex_mode_dual_de_q id;
  contents = λ s. at id s.ex_modes_dual;
  en_q_lem = ex_mode_dual_en_q_lem id;
  de_q_lem = ex_mode_dual_de_q_lem id;
}

-- Whatever calls the threads make on the queue of tasks of one camera, and on the queue of mode flags of
-- one camera, in whatever order the mutex lets them in: each call returns what a first-in first-out
-- list returns, and the queue holds at the end what that list holds.
algo_queues_refine :
    (id : Camera) (s : AlgoQueues) (ops : List (Op Task)) (mode_ops : List (Op ExpansionMode))
    → (((run (tasks_dual_api id) s ops).0, at id (run (tasks_dual_api id) s ops).1.tasks_dual)
        ≡ Fifo.run (at id s.tasks_dual) ops)
      × ((
        (run (ex_mode_dual_api id) s mode_ops).0,
        at id (run (ex_mode_dual_api id) s mode_ops).1.ex_modes_dual,
      )
          ≡ Fifo.run (at id s.ex_modes_dual) mode_ops)
unfolding tasks_dual_api ex_mode_dual_api
algo_queues_refine id s ops mode_ops =
    (run_refines (tasks_dual_api id) s ops, run_refines (ex_mode_dual_api id) s mode_ops)
