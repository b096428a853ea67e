-- ===== src/Image/Normal.antt =====
-- The rest of a round of `ips_process_Dual`: a command other than the trigger is recorded, or run at once.
use vision_box_dual_cam.Base.{
  ◌==◌, Bool, true, false, ◌||◌, ◌&&◌, not, [], ◌∷◌, ◌++◌, none, if◌then◌else◌,
}
use vision_box_dual_cam.Base.Camera.{Camera}
use vision_box_dual_cam.Queue.Algo.{Task, ExpansionMode}
use vision_box_dual_cam.Image.{Methods, Image, nonzero, is_camera, is_streaming, reply}
use vision_box_dual_cam.Image.Auto.{run_method, auto_run}

-- How a round ends: the loop over the queue goes on, or is left.
pub data Outcome : Type 0 where
  continues breaks : Outcome

module _ {W : Type 0} (methods : Methods W) where
  -- The auto running command sets the two modes, and resets the parameters where the first changed.
  unfoldable pub note_modes : Task → ExpansionMode → Image W → Image W
  unfolding nonzero
  note_modes t mode s =
      if t.method == 0
      then (let s1 : Image W = record s {
        enb_auto_running_mode = nonzero mode.auto_running;
        enb_trigger_mode = nonzero mode.enb_trigger_mode;
      } in
          if (not s1.prev_auto_running_mode && s1.enb_auto_running_mode)
            || (s1.prev_auto_running_mode && not s1.enb_auto_running_mode)
          then record s1 {
            prev_auto_running_mode = s1.enb_auto_running_mode;
            memory = methods.reset_all_param s1.memory;
          }
          else s1)
      else s

  -- The four cases of the recording: a task that is recorded is not run, but for the last one. The first
  -- result says if the round is over.
  unfoldable pub record_task : Task → Image W → Bool × Image W
  record_task t s =
      if not s.prev_trigger_mode && s.enb_trigger_mode
      then (true, record s { prev_trigger_mode = s.enb_trigger_mode; recorded = t ∷ [] })
      else if s.prev_trigger_mode && s.enb_trigger_mode
      then (true, record s { recorded = s.recorded ++ (t ∷ []) })
      else if s.prev_trigger_mode && not s.enb_trigger_mode
      then (
        false,
        record s { prev_trigger_mode = s.enb_trigger_mode; recorded = s.recorded ++ (t ∷ []) },
      )
      else (false, record s { recorded = [] })

  -- The parameters from the common ones, in the auto running mode.
  unfoldable pub with_parm : Task → Image W → Task × Image W
  with_parm t s =
      if s.enb_auto_running_mode
      then (let (t', w) = methods.to_parm t s.memory in (t', record s { memory = w }))
      else (t, s)

  -- A method that failed.
  unfoldable pub give_up_normal : Camera → Task → Image W → Image W
  unfolding is_camera is_streaming reply
  give_up_normal id t s =
      let s1 : Image W = record (reply t.method none s) {
        enb_auto_running_mode = false;
        prev_auto_running_mode = false;
      } in
      if (is_camera t.method || is_streaming t.method) && methods.ret_state t s1.memory
      then record s1 { memory = methods.recover id s1.memory }
      else s1

  -- The algorithm at once, with its answer.
  unfoldable pub run_normal : Camera → Task → Image W → Outcome × Image W
  unfolding with_parm give_up_normal reply run_method
  run_normal id t s =
      let (t1, s1) = with_parm t s in
      let (bad, s2) = run_method methods id false t1 s1 in
      if bad then (breaks, give_up_normal id t1 s2) else (
        continues,
        if s2.enb_auto_running_mode
            then (let s3 : Image W = record s2 { memory = methods.to_all t1 s2.memory } in
                if t1.method == 32 || t1.method == 33 then reply t1.method none s3 else s3)
            else reply t1.method none s2,
      )

  -- One round of the loop over the queue, for the task and the mode that it dequeued.
  unfoldable pub take_task : Camera → Task → ExpansionMode → Image W → Outcome × Image W
  unfolding auto_run note_modes record_task run_normal
  take_task id t mode s =
      if t.method == 1
      then (continues, auto_run methods id t mode s)
      else (let (over, s1) = record_task t (note_modes t mode s) in
          if over then (continues, s1) else run_normal id t s1)
