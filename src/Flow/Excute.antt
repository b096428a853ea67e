-- ===== src/Flow/Excute.antt =====
-- The run of the inspection: one command for each trigger, and the flow status that ends it.
use vision_box_dual_cam.Base.{ℕ, zero, suc, ◌≡◌, refl, ap, ◌∙◌, String, some, arith, [], ◌∷◌, ◌++◌}
use vision_box_dual_cam.Base.Int.{pos, negsuc}
use vision_box_dual_cam.Base.Camera.{Camera, camera_1, camera_2, at}
use vision_box_dual_cam.Node.{gi_excute_auto_gi}
use vision_box_dual_cam.Io.Sysfs.{Os}
use vision_box_dual_cam.Algo.Names.{trigger_mode_set_param}
use vision_box_dual_cam.Algo.HashMap.{compare_hash_map}
use vision_box_dual_cam.Algo.Assign.{Algo, update, Commands, method_assign_dual, make_task}
use vision_box_dual_cam.Queue.Algo.{
  Task, no_parm, no_mode, ExpansionMode, ex_mode_dual_en_q, tasks_dual_en_q,
}
use vision_box_dual_cam.Queue.Deque.{en_q}
use vision_box_dual_cam.Threads.{resume_ip_dual, get_status_mp}
use vision_box_dual_cam.Flow.State.{Box, set_flow, set_wake, count_tasks}
use vision_box_dual_cam.Flow.{handler, flow_case, show, flow_excute, wake_ips, flow_status}
use vision_box_dual_cam.Flow.Runs.{
  Inspecting, then_show, handler_times, handler_times-suc, handler-Inspecting,
}

-- The trigger command and the mode that are queued for one run.
abbrev pub trigger_mode : ExpansionMode
trigger_mode = record no_mode { trigger_mode_activat = 1 }

module _ {Json : Type 0} (os : Os) (cmds : Commands Json) where
  abbrev pub trigger_task : Box → Task
  trigger_task b = record {
    method = 1;
    filled = cmds.convert 1 (record b.algo.args { flg_trigger_mode_activate = 1 }) no_parm;
  }

  -- The queues of the camera after a box whose queues are those of `b` and one command.
  abbrev pub OneMore : Camera → Box → Box → Type 0
  OneMore c b b' =
      (at c b'.algo.queues.tasks_dual ≡ at c b.algo.queues.tasks_dual ++ (trigger_task b ∷ []))
      × (at c b'.algo.queues.ex_modes_dual
          ≡ at c b.algo.queues.ex_modes_dual ++ (trigger_mode ∷ []))

  -- The state in which the first call leaves the shared data.
  woken : Camera → Box → Box
  unfolding count_tasks set_wake
  woken c b =
      let a : Algo = record b.algo {
        args = record b.algo.args { flg_trigger_mode_activate = 1 };
        method_json = update 1 "{ \"Enb_TriggerMode_Activate\": 1 }" b.algo.method_json;
        queues =
            (tasks_dual_en_q c (trigger_task b)
              (ex_mode_dual_en_q c trigger_mode b.algo.queues).1).1;
      } in
      set_wake c 1
        (record b { algo = a; threads = resume_ip_dual c (count_tasks c a.queues b.threads) })

  wake_woken :
      (c : Camera) (b : Box)
      → compare_hash_map trigger_mode_set_param b.algo.hash_method ≡ pos 1
      → wake_ips os cmds c b ≡ some (woken c b)
  unfolding wake_ips method_assign_dual make_task woken
  wake_woken c b h = rw (wake_ips, method_assign_dual, h) refl

  woken_queues : (c : Camera) (b : Box) → OneMore c b (woken c b)
  unfolding woken set_wake ex_mode_dual_en_q tasks_dual_en_q en_q
  woken_queues c b = ground arith

  excute_first :
      (c : Camera) (b : Box)
      → at c b.wake_ips_flag ≡ 0
      → compare_hash_map trigger_mode_set_param b.algo.hash_method ≡ pos 1
      → flow_excute os cmds c b
        ≡ some (flow_status os cmds c (get_status_mp (woken c b).threads) (woken c b))
  unfolding flow_excute
  excute_first c b w h = rw (flow_excute, w, wake_woken c b h) refl

  -- The run goes on: its status is not there yet.
  abbrev pub Running : Camera → Box → Type 0
  Running c b = Inspecting c gi_excute_auto_gi b × ((n : ℕ) × (b.threads.mp_flow_status ≡ negsuc n))

  -- A run that began at `b` with one command, and is going on at `b'`.
  abbrev pub Started : Camera → Box → Box → Type 0
  Started c b b' = Running c b' × OneMore c b b' × (at c b'.wake_ips_flag ≡ 1)

  excute_again :
      (c : Camera) (b : Box) (n : ℕ)
      → at c b.wake_ips_flag ≡ 1
      → b.threads.mp_flow_status ≡ negsuc n
      → flow_excute os cmds c b ≡ some (set_flow c gi_excute_auto_gi b)
  unfolding flow_excute flow_status get_status_mp
  excute_again c b n w s = rw (flow_excute, w, s) refl

  pub handler_again :
      (c : Camera) (stack : String → ℕ) (b : Box) (n : ℕ)
      → Inspecting c gi_excute_auto_gi b
      → at c b.wake_ips_flag ≡ 1
      → b.threads.mp_flow_status ≡ negsuc n
      → handler os cmds c stack b ≡ some (show c (set_flow c gi_excute_auto_gi b))
  unfolding flow_case
  handler_again c stack b n i w s =
      handler-Inspecting os cmds c gi_excute_auto_gi stack b i
      ∙ ap (then_show c) (excute_again c b n w s)

  handler_first :
      (c : Camera) (stack : String → ℕ) (b : Box) (n : ℕ)
      → Inspecting c gi_excute_auto_gi b
      → at c b.wake_ips_flag ≡ 0
      → compare_hash_map trigger_mode_set_param b.algo.hash_method ≡ pos 1
      → b.threads.mp_flow_status ≡ negsuc n
      → handler os cmds c stack b ≡ some (show c (set_flow c gi_excute_auto_gi (woken c b)))
  unfolding flow_case
  handler_first c stack b n i w h s =
      handler-Inspecting os cmds c gi_excute_auto_gi stack b i
      ∙ ap (then_show c) (excute_first c b w h ∙ ap some (status c s))
    where
      status :
          (c : Camera)
          → b.threads.mp_flow_status ≡ negsuc n
          → flow_status os cmds c (get_status_mp (woken c b).threads) (woken c b)
            ≡ set_flow c gi_excute_auto_gi (woken c b)
      status c s =
          unfold flow_status get_status_mp woken set_wake count_tasks resume_ip_dual in rw s refl

  again_Started :
      (c : Camera) (b b' : Box)
      → Started c b b'
      → Started c b (show c (set_flow c gi_excute_auto_gi b'))
  unfolding show set_flow
  again_Started camera_1 b b' (((act, mode, f), s), more, w) = (((act, mode, refl), s), more, w)
  again_Started camera_2 b b' (((act, mode, f), s), more, w) = (((act, mode, refl), s), more, w)

  first_Started :
      (c : Camera) (b : Box)
      → Running c b
      → Started c b (show c (set_flow c gi_excute_auto_gi (woken c b)))
  unfolding show set_flow woken set_wake count_tasks resume_ip_dual
  first_Started camera_1 b ((act, mode, f), s) =
      (((act, mode, refl), s), woken_queues camera_1 b, refl)
  first_Started camera_2 b ((act, mode, f), s) =
      (((act, mode, refl), s), woken_queues camera_2 b, refl)

  rounds :
      (n : ℕ) (c : Camera) (stack : String → ℕ) (b b' : Box)
      → Started c b b'
      → (b'' : Box) × (handler_times os cmds n c stack b' ≡ some b'') × Started c b b''
  unfolding handler_times
  rounds zero c stack b b' s = (b', refl, s)
  rounds (suc n) c stack b b' s =
      let ((i, (k, e)), more, w) = s in
      let (b2, h, s2) =
        rounds n c stack b (show c (set_flow c gi_excute_auto_gi b')) (again_Started c b b' s) in
      (b2, handler_times-suc os cmds n c stack b' _ (handler_again c stack b' k i w e) ∙ h, s2)

  -- One command for each trigger: from a camera in the executing state with its wake flag 0 and no flow status
  -- yet, however many rounds of the main loop pass, at least one, while nothing else writes, exactly
  -- one command and one mode are put into the camera's queues, and the camera stays in its state. The
  -- name of the command is in the map, in its row of the table.
  pub excute-OneMore :
      (n : ℕ) (c : Camera) (stack : String → ℕ) (b : Box)
      → Running c b
      → at c b.wake_ips_flag ≡ 0
      → compare_hash_map trigger_mode_set_param b.algo.hash_method ≡ pos 1
      → (b' : Box) × (handler_times os cmds (suc n) c stack b ≡ some b')
        × Running c b'
        × OneMore c b b'
  excute-OneMore n c stack b (i, (k, e)) w h =
      let (b2, g, (r, more, w2)) =
        rounds n c stack b (show c (set_flow c gi_excute_auto_gi (woken c b)))
          (first_Started c b (i, (k, e))) in
      (b2, handler_times-suc os cmds n c stack b _ (handler_first c stack b k i w h e) ∙ g, r, more)
