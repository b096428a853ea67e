-- ===== src/Main/Laws.antt =====
-- What one round of the main loop takes from the queues, and whom it wakes.
use vision_box_dual_cam.Base.{
  ℕ, ◌≡◌, refl, ◌==◌, Bool, false, List, [], ◌∷◌, ◌++◌, some, if◌then◌else◌, arith,
}
use vision_box_dual_cam.Base.Int.{pos, success}
use vision_box_dual_cam.Base.Camera.{camera_1, camera_2}
use vision_box_dual_cam.Queue.Deque.{en_q, de_q, is_empty}
use vision_box_dual_cam.Queue.Inner.{main_is_empty, main_de_q}
use vision_box_dual_cam.Queue.Json.{json_de_q, json_dual_de_q, io_json_is_empty}
use vision_box_dual_cam.Queue.Algo.{Task, no_parm, no_mode, ex_mode_en_q, tasks_en_q}
use vision_box_dual_cam.Algo.Names.{camera_set_inquiry}
use vision_box_dual_cam.Algo.HashMap.{compare_hash_map}
use vision_box_dual_cam.Algo.Assign.{Commands, Algo, update, method_assign, make_task}
use vision_box_dual_cam.Threads.{resume_io, resume_ip_dual}
use vision_box_dual_cam.Threads.Worker.{Gate, resume}
use vision_box_dual_cam.Main.{Shared, serve_camera, serve_commands, priority_pass}

abbrev pub rest : {A : Type 0} → List A → List A
rest [] = []
rest (x ∷ xs) = xs

-- The gate of a thread for which a command was found, or not.
abbrev pub woken : {A : Type 0} → List A → Gate → Gate
woken [] g = g
woken (x ∷ xs) g = resume g

-- One round takes one message from the main queue, if there is one, and for it at most one command from
-- the queue of each camera; it resumes exactly the image threads whose queue had a command, and the IO thread
-- exactly if its queue has one, which stays there. Without a message nothing is taken or resumed.
pub serve_commands-takes :
    (s : Shared)
    → let s' = serve_commands s in
      let idle : Bool = is_empty s.inner.main in
      (s'.inner.main ≡ rest s.inner.main)
      × (s'.json.json_dual.first
          ≡ (if idle then s.json.json_dual.first else rest s.json.json_dual.first))
      × (s'.json.json_dual.second
          ≡ (if idle then s.json.json_dual.second else rest s.json.json_dual.second))
      × (s'.json.io_json ≡ s.json.io_json)
      × (s'.threads.ip.first
          ≡ (if idle then s.threads.ip.first else woken s.json.json_dual.first s.threads.ip.first))
      × (s'.threads.ip.second ≡ (
          if idle then s.threads.ip.second else woken s.json.json_dual.second s.threads.ip.second))
      × (s'.threads.io ≡ (if idle then s.threads.io else woken s.json.io_json s.threads.io))
unfolding serve_commands serve_camera main_is_empty main_de_q json_de_q json_dual_de_q
    io_json_is_empty resume_io resume_ip_dual de_q is_empty
serve_commands-takes s = ground arith

module _ {Json : Type 0} (cmds : Commands Json) where
  inquiry : Shared → Task
  inquiry s = record { method = 3; filled = cmds.convert 3 s.algo.args no_parm }

  passed : Shared → Shared
  unfolding update inquiry
  passed s =
      let a : Algo = record s.algo {
        method_json = update 3 "{ \"status\": \"FW_Mqtt_PriorityPass\" }" s.algo.method_json;
        queues = (tasks_en_q (inquiry s) (ex_mode_en_q no_mode s.algo.queues).1).1;
      } in
      record s { algo = a; threads = resume_ip_dual camera_2 (resume_ip_dual camera_1 s.threads) }

  passed_lem :
      (is_end_func : ℕ) (s : Shared)
      → (is_end_func == 0) ≡ false
      → compare_hash_map camera_set_inquiry s.algo.hash_method ≡ pos 3
      → priority_pass cmds is_end_func s ≡ some (success, passed s)
  unfolding passed inquiry priority_pass method_assign make_task
  passed_lem is_end_func s e h = rw (priority_pass, e, method_assign, h) refl

  -- The inquiry of the priority pass does not reach the threads that it resumes: its task and its mode go into the
  -- queues of the single camera, and the queues of the two cameras, which those threads read,
  -- stay as they were. The name of the inquiry is in the map, in its row of the table.
  priority_pass-queues :
      (is_end_func : ℕ) (s : Shared)
      → (is_end_func == 0) ≡ false
      → compare_hash_map camera_set_inquiry s.algo.hash_method ≡ pos 3
      → (s' : Shared) × (t : Task) × (priority_pass cmds is_end_func s ≡ some (success, s'))
        × (s'.algo.queues.tasks ≡ s.algo.queues.tasks ++ (t ∷ []))
        × (t.method ≡ 3)
        × (s'.algo.queues.tasks_dual ≡ s.algo.queues.tasks_dual)
        × (s'.threads.ip.first.suspend_flag ≡ 0)
        × (s'.threads.ip.second.suspend_flag ≡ 0)
  unfolding passed inquiry tasks_en_q ex_mode_en_q en_q resume_ip_dual resume
  priority_pass-queues is_end_func s e h =
      (passed s, inquiry s, passed_lem is_end_func s e h, refl, refl, refl, refl, refl)
