-- ===== src/Main.antt =====
-- mainCtl/mainCtl.c: the part of the main loop that serves the command queues, before it calls the flow
-- handlers, and the priority pass for the internal commands.
pub mod Laws
mod Tests
use vision_box_dual_cam.Base.{ℕ, ◌==◌, Bool, true, false, Option, some, none, if◌then◌else◌}
use vision_box_dual_cam.Base.Int.{ℤ, pos, negsuc, success}
use vision_box_dual_cam.Base.Camera.{Camera, camera_1, camera_2}
use vision_box_dual_cam.Queue.Inner.{InnerQueues, main_is_empty, main_de_q}
use vision_box_dual_cam.Queue.Json.{JsonQueues, json_de_q, json_dual_de_q, io_json_is_empty}
use vision_box_dual_cam.Queue.Algo.{no_mode, ex_mode_en_q}
use vision_box_dual_cam.Algo.Names.{camera_set_inquiry}
use vision_box_dual_cam.Algo.Assign.{Commands, Algo, method_assign}
use vision_box_dual_cam.Threads.{Threads, resume_io, resume_ip_dual}

pub record Shared : Type 0 where
  pub inner : InnerQueues
  pub json : JsonQueues
  pub algo : Algo
  pub threads : Threads

-- `if (!JsonQ_DeQ_Dual(&seInfo, id))`: a command is taken and the camera's image thread resumed.
unfoldable pub serve_camera : Camera → Shared → Shared
serve_camera c s =
    let (ret, info, q) = json_dual_de_q c s.json in
    elim ret [
      | pos n ↦
          if n == 0
          then record s { json = q; threads = resume_ip_dual c s.threads }
          else record s { json = q }
      | negsuc n ↦ record s { json = q }
    ]

-- `if (m != 1)` of the loop: one message is taken, then at most one command of each queue. A command
-- of the single camera is only logged.
unfoldable pub serve_commands : Shared → Shared
unfolding serve_camera
serve_commands s =
    if main_is_empty s.inner
    then s
    else (let s1 : Shared = record s { inner = (main_de_q s.inner).2 } in
        let s2 : Shared =
          if io_json_is_empty s1.json then s1 else record s1 { threads = resume_io s1.threads } in
        serve_camera camera_2 (serve_camera camera_1 (record s2 { json = (json_de_q s2.json).2 })))

module _ {Json : Type 0} (cmds : Commands Json) where
  -- `FW_Mqtt_PriorityPass_Internal`: the inquiry is queued for the single camera, and the threads of the
  -- two cameras are resumed.
  unfoldable pub priority_pass : ℕ → Shared → Option (ℤ × Shared)
  priority_pass is_end_func s =
      if is_end_func == 0
      then some (success, s)
      else (let a : Algo = s.algo in
          let a1 : Algo = record a { queues = (ex_mode_en_q no_mode a.queues).1 } in
          elim (method_assign cmds camera_set_inquiry "{ \"status\": \"FW_Mqtt_PriorityPass\" }"
            a1) [
              | some (ret, a2) ↦ some (
                success,
                record s {
                  algo = a2;
                  threads = resume_ip_dual camera_2 (resume_ip_dual camera_1 s.threads);
                },
              )
              | none ↦ none
            ])
