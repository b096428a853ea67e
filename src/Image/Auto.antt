-- ===== src/Image/Auto.antt =====
-- The branch of `ips_process_Dual` for the trigger command: the recorded tasks are run in order.
use vision_box_dual_cam.Base.{
  ℕ, ◌+◌, ◌==◌, Bool, true, false, ◌||◌, ◌&&◌, not, List, [], ◌∷◌, some, none, if◌then◌else◌,
}
use vision_box_dual_cam.Base.Int.{pos, success, failure}
use vision_box_dual_cam.Base.Camera.{Camera}
use vision_box_dual_cam.Queue.Algo.{Task, ExpansionMode}
use vision_box_dual_cam.Image.{
  gige, ipl, Methods, Image, nonzero, failed, handle_of, is_camera, is_streaming, reply, finish,
}

module _ {W : Type 0} (methods : Methods W) where
  -- The parameters are reset where the mode changed since the last run.
  unfoldable pub sync_activate : Image W → Image W
  sync_activate s =
      if (not s.prev_auto_running_mode_activate && s.enb_auto_running_mode_activate)
        || (s.prev_auto_running_mode_activate && not s.enb_auto_running_mode_activate)
      then record s {
        prev_auto_running_mode_activate = s.enb_auto_running_mode_activate;
        memory = methods.reset_all_param s.memory;
      }
      else s

  -- What comes before the algorithm: the handle, and the task with its parameters.
  unfoldable pub prepare : Task → Image W → Task × Image W
  unfolding sync_activate handle_of
  prepare t s =
      let s1 : Image W = if t.method == 0 then sync_activate s else s in
      let s2 : Image W = elim (handle_of t.method) [
        | gige ↦ record s1 { memory = methods.release_img s1.memory }
        | ipl ↦ s1
      ] in
      if s2.enb_auto_running_mode_activate
      then (let (t', w) = methods.to_parm t s2.memory in (t', record s2 { memory = w }))
      else (t, s2)

  -- A method that failed: the run is off, the camera may be opened again, and the main thread is told.
  -- The first three commands are looked for in the trigger command, `trig`.
  unfoldable pub give_up : Camera → (trig t : Task) → Image W → Image W
  unfolding is_camera is_streaming reply finish
  give_up id trig t s =
      let s1 : Image W = record (reply t.method none s) {
        enb_auto_running_mode_activate = false;
        prev_auto_running_mode_activate = false;
      } in
      let s2 : Image W =
        if (is_camera trig.method || is_streaming t.method) && methods.ret_state trig s1.memory
        then record s1 { memory = methods.recover id s1.memory }
        else s1 in
      finish id "Auto_Mode_Fail" failure s2

  -- A method that succeeded: its results are kept, and a capture and a measurement are answered at once. The
  -- number is that of the next measurement.
  unfoldable pub keep_result : Task → ℕ → Image W → ℕ × Image W
  unfolding reply
  keep_result t k s =
      if s.enb_auto_running_mode_activate
      then (let s1 : Image W = record s { memory = methods.to_all t s.memory } in
          if t.method == 5
          then (k, reply t.method none s1)
          else if t.method == 32 || t.method == 33
          then (k + 1, reply t.method (some k) s1)
          else (k, s1))
      else (k, s)

  -- One call of the algorithm. The result, as an error or not, and the state.
  unfoldable pub run_method : Camera → (with_img : Bool) → Task → Image W → Bool × Image W
  unfolding handle_of failed
  run_method id with_img t s =
      let (res, w) = methods.algo_mthd id (handle_of t.method) with_img t s.memory in
      (failed res, record s { memory = w })

  -- The loop over the recorded tasks, which a failure leaves. The first result says if one failed.
  unfoldable pub run_recorded : Camera → Task → List Task → ℕ → Image W → Bool × Image W
  unfolding prepare give_up keep_result run_method
  run_recorded id trig [] k s = (false, s)
  run_recorded id trig (t ∷ ts) k s =
      let (t1, s1) = prepare t s in
      let (bad, s2) = run_method id true t1 s1 in
      let (k3, s3) = keep_result t1 k s2 in
      let rest = run_recorded id trig ts k3 s3 in
      if bad then (true, give_up id trig t1 s2) else rest

  -- The whole branch, for the trigger command and the mode that was dequeued with it.
  unfoldable pub auto_run : Camera → Task → ExpansionMode → Image W → Image W
  unfolding nonzero finish reply run_recorded
  auto_run id trig mode s =
      let s1 : Image W = record s {
        enb_trigger_mode_activate = nonzero mode.trigger_mode_activat;
      } in
      if nonzero mode.trigger_mode_activat
      then elim s.recorded [
        | [] ↦ record (finish id "Auto_Mode_Fail" success s1) {
          enb_auto_running_mode_activate = false;
        }
        | t ∷ ts ↦
            (let (bad, s2) =
                run_recorded id trig (t ∷ ts) 1
                  (reply trig.method none (record s1 { enb_auto_running_mode_activate = true })) in
              if bad then s2 else finish id "Auto_Mode_Done" (pos 1) s2)
      ]
      else record (finish id "Auto_Mode_Fail" success s1) { enb_auto_running_mode_activate = false }
