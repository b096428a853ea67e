-- ===== src/Queue/Algo.antt =====
-- ipsCtl/IPS_CompAlgorithm.c: the queues of algorithm tasks, `TasksQ`, and of the mode flags that
-- travel beside them, `ExModeQ`, for the single camera and for each of the two cameras.
pub mod Laws
use vision_box_dual_cam.Base.{ℕ, String, Bool, Option, List, []}
use vision_box_dual_cam.Base.Int.{ℤ}
use vision_box_dual_cam.Base.Camera.{Camera, Dual, at, put_at}
use vision_box_dual_cam.Queue.Deque

-- `seExpansionMode` of ipsCtl/IPS_MethodStructureDef.h.
pub record ExpansionMode : Type 0 where
  pub auto_running : ℕ
  pub enb_trigger_mode : ℕ
  pub trigger_mode_activat : ℕ

-- The constructor of `tagExpansionMode`.
abbrev pub no_mode : ExpansionMode
no_mode = record { auto_running = 0; enb_trigger_mode = 0; trigger_mode_activat = 0 }

-- The fields of `CAlgoMethodParametr` that the parameter converters fill. `pParm` is raw memory.
pub record MethodParm : Type 0 where
  pub parm : List ℕ
  pub input_img_path : String
  pub template_img_path : String
  pub save_img_path : String
  pub result_img_path : String

-- Its constructor.
abbrev pub no_parm : MethodParm
no_parm = record {
  parm = [];
  input_img_path = "";
  template_img_path = "";
  save_img_path = "";
  result_img_path = "";
}

-- `CAlgoMethodParametr`. The row `mAlgoMethod` is copied from the table of methods, and all that the
-- row holds but its number is constant; its JSON text is behind a pointer to a buffer of the row.
pub record Task : Type 0 where
  pub method : ℕ
  pub filled : MethodParm

pub record AlgoQueues : Type 0 where
  pub tasks : List Task  -- deqMthParmTasksRespo
  pub ex_modes : List ExpansionMode  -- deqFlagExMode
  pub tasks_dual : Dual (List Task)  -- deqMthParmTasksRespo_Dual
  pub ex_modes_dual : Dual (List ExpansionMode)  -- deqFlagExMode_Dual

abbrev pub no_tasks : AlgoQueues
no_tasks = record {
  tasks = [];
  ex_modes = [];
  tasks_dual = record { first = []; second = [] };
  ex_modes_dual = record { first = []; second = [] };
}

unfoldable pub tasks_en_q : Task → AlgoQueues → ℤ × AlgoQueues
tasks_en_q x s = let (res, q) = Deque.en_q x s.tasks in (res, record s { tasks = q })

unfoldable pub tasks_de_q : AlgoQueues → ℤ × Option Task × AlgoQueues
tasks_de_q s = let (res, out, q) = Deque.de_q s.tasks in (res, out, record s { tasks = q })

unfoldable pub tasks_get_size : AlgoQueues → ℕ
tasks_get_size s = Deque.get_size s.tasks

unfoldable pub tasks_is_empty : AlgoQueues → Bool
tasks_is_empty s = Deque.is_empty s.tasks

unfoldable pub ex_mode_en_q : ExpansionMode → AlgoQueues → ℤ × AlgoQueues
ex_mode_en_q x s = let (res, q) = Deque.en_q x s.ex_modes in (res, record s { ex_modes = q })

unfoldable pub ex_mode_de_q : AlgoQueues → ℤ × Option ExpansionMode × AlgoQueues
ex_mode_de_q s = let (res, out, q) = Deque.de_q s.ex_modes in (res, out, record s { ex_modes = q })

unfoldable pub ex_mode_get_size : AlgoQueues → ℕ
ex_mode_get_size s = Deque.get_size s.ex_modes

unfoldable pub tasks_dual_en_q : Camera → Task → AlgoQueues → ℤ × AlgoQueues
tasks_dual_en_q id x s =
    let (res, q) = Deque.en_q x (at id s.tasks_dual) in
    (res, record s { tasks_dual = put_at id q s.tasks_dual })

unfoldable pub tasks_dual_de_q : Camera → AlgoQueues → ℤ × Option Task × AlgoQueues
tasks_dual_de_q id s =
    let (res, out, q) = Deque.de_q (at id s.tasks_dual) in
    (res, out, record s { tasks_dual = put_at id q s.tasks_dual })

unfoldable pub tasks_dual_get_size : Camera → AlgoQueues → ℕ
tasks_dual_get_size id s = Deque.get_size (at id s.tasks_dual)

unfoldable pub tasks_dual_is_empty : Camera → AlgoQueues → Bool
tasks_dual_is_empty id s = Deque.is_empty (at id s.tasks_dual)

unfoldable pub ex_mode_dual_en_q : Camera → ExpansionMode → AlgoQueues → ℤ × AlgoQueues
ex_mode_dual_en_q id x s =
    let (res, q) = Deque.en_q x (at id s.ex_modes_dual) in
    (res, record s { ex_modes_dual = put_at id q s.ex_modes_dual })

unfoldable pub ex_mode_dual_de_q : Camera → AlgoQueues → ℤ × Option ExpansionMode × AlgoQueues
ex_mode_dual_de_q id s =
    let (res, out, q) = Deque.de_q (at id s.ex_modes_dual) in
    (res, out, record s { ex_modes_dual = put_at id q s.ex_modes_dual })

unfoldable pub ex_mode_dual_get_size : Camera → AlgoQueues → ℕ
ex_mode_dual_get_size id s = Deque.get_size (at id s.ex_modes_dual)
