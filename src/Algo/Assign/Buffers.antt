-- ===== src/Algo/Assign/Buffers.antt =====
-- The JSON texts of the queued commands stand in one buffer for each row of the table of methods.
use vision_box_dual_cam.Base.{ℕ, ◌≡◌, refl, ◌∙◌, false, [], ◌∷◌, ◌++◌, some, String, ◌==◌, arith}
use vision_box_dual_cam.Base.Int.{pos, success}
use vision_box_dual_cam.Base.Camera.{Camera, camera_1, camera_2, other, at}
use vision_box_dual_cam.Queue.Algo.{Task, no_parm, tasks_dual_en_q}
use vision_box_dual_cam.Queue.Deque.{en_q}
use vision_box_dual_cam.Algo.Names.{enum_algo_end}
use vision_box_dual_cam.Algo.HashMap.{compare_hash_map}
use vision_box_dual_cam.Algo.Assign.{Commands, Algo, make_task, method_assign_dual, update}

-- The text that a queued task's `pJsonBuf` points at.
abbrev pub json_of : Task → Algo → String
json_of t a = a.method_json t.method

module _ {Json : Type 0} (cmds : Commands Json) where
  one_task : ℕ → Algo → Task
  one_task i a = record { method = i; filled = cmds.convert i a.args no_parm }

  assigned_state : ℕ → String → Camera → Algo → Algo
  unfolding one_task update
  assigned_state i text c a = record a {
    method_json = update i text a.method_json;
    queues = (tasks_dual_en_q c (one_task i a) a.queues).1;
  }

  assign_lem :
      (key text : String) (c : Camera) (a : Algo) (i : ℕ)
      → compare_hash_map key a.hash_method ≡ pos i
      → (i == enum_algo_end) ≡ false
      → method_assign_dual cmds key text c a ≡ some (success, assigned_state i text c a)
  unfolding assigned_state one_task method_assign_dual make_task
  assign_lem key text c a i h e = rw (method_assign_dual, h, make_task, e) refl

  own_queue :
      (i : ℕ) (first second : String) (c : Camera) (a : Algo)
      → at c (assigned_state i second (other c) (assigned_state i first c a)).queues.tasks_dual
        ≡ at c a.queues.tasks_dual ++ (one_task i a ∷ [])
  unfolding assigned_state tasks_dual_en_q en_q
  own_queue i first second camera_1 a = refl
  own_queue i first second camera_2 a = refl

  other_queue :
      (i : ℕ) (first second : String) (c : Camera) (a : Algo)
      → at
          (other c)
          (assigned_state i second (other c) (assigned_state i first c a)).queues.tasks_dual
        ≡ at (other c) a.queues.tasks_dual ++ (one_task i (assigned_state i first c a) ∷ [])
  unfolding assigned_state tasks_dual_en_q en_q
  other_queue i first second camera_1 a = refl
  other_queue i first second camera_2 a = refl

  written :
      (i : ℕ) (text : String) (c : Camera) (a : Algo)
      → (assigned_state i text c a).method_json i ≡ text
  unfolding assigned_state update
  written i text c a = ground arith

  json_of_task : (i : ℕ) (a b : Algo) → json_of (one_task i a) b ≡ b.method_json i
  unfolding one_task
  json_of_task i a b = refl

  -- The text of a command is lost while the command waits: after two calls with one name, the first for
  -- one camera and the second for the other, a task for each waits at the end of its camera's queue, and
  -- both tasks hold the text of the second call.
  pub method_assign_dual-json :
      (key first second : String) (c : Camera) (a : Algo) (i : ℕ)
      → compare_hash_map key a.hash_method ≡ pos i
      → (i == enum_algo_end) ≡ false
      → (b1 : Algo) × (b2 : Algo) × (t : Task) × (u : Task) × (method_assign_dual cmds key first c a
          ≡ some (success, b1))
        × (method_assign_dual cmds key second (other c) b1 ≡ some (success, b2))
        × (at c b2.queues.tasks_dual ≡ at c a.queues.tasks_dual ++ (t ∷ []))
        × (at (other c) b2.queues.tasks_dual ≡ at (other c) a.queues.tasks_dual ++ (u ∷ []))
        × (json_of t b1 ≡ first)
        × (json_of t b2 ≡ second)
        × (json_of u b2 ≡ second)
  unfolding assigned_state
  method_assign_dual-json key first second c a i h e =
      let b1 : Algo = assigned_state i first c a in
      let b2 : Algo = assigned_state i second (other c) b1 in
      (
        b1,
        b2,
        one_task i a,
        one_task i b1,
        assign_lem key first c a i h e,
        assign_lem key second (other c) b1 i h e,
        own_queue i first second c a,
        other_queue i first second c a,
        json_of_task i a b1 ∙ written i first c a,
        json_of_task i a b2 ∙ written i second (other c) b1,
        json_of_task i b1 b2 ∙ written i second (other c) b1,
      )
