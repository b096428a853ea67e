-- ===== src/Flow.antt =====
-- mainCtl/mainCtl.c: the state machine of the auto glue inspection, `Process_Flow_Handler` for the first
-- camera and `Process_Flow_Handler_Dual` for the second. Their texts are the same up to the names of
-- the camera's variables, which are indexed here. The sleeps, the log and `ios_modbusGITesting`, whose
-- body is a comment, have no effect on the state.
pub mod State
pub mod Moves
pub mod Runs
pub mod Triggers
pub mod Excute
pub mod Verdict
pub mod Start
pub mod Lost
pub mod World
pub mod Cycle
mod Scenarios
mod Tests
pub mod Arrival
pub mod Cases
pub mod Apart
use vision_box_dual_cam.Base.{
  ℕ, zero, suc, Bool, true, false, not, ◌||◌, ◌&&◌, String, List, [], ◌∷◌, Option, none, some, ◌==◌,
  if◌then◌else◌, streq,
}
use vision_box_dual_cam.Base.Int.{ℤ, pos, negsuc, failure}
use vision_box_dual_cam.Base.Camera.{Camera, camera_1, camera_2, other, Dual, at, put_at}
use vision_box_dual_cam.Node.{
  AutoMode, glue_inspection, basic_inspection, ai_inspection, non_auto, GiFlow, gi_start,
  gi_wait_trigger, gi_excute_auto_gi, gi_get_test_result, ProcessNode,
}
use vision_box_dual_cam.Queue.Inner.{
  ios_is_empty, ios_de_q, ios_en_q, ips_dual_is_empty, ips_dual_de_q,
}
use vision_box_dual_cam.Queue.Algo.{ExpansionMode, no_mode, ex_mode_dual_en_q}
use vision_box_dual_cam.Algo.Names.{trigger_mode_set_param}
use vision_box_dual_cam.Algo.Assign.{Args, Commands, Algo, method_assign_dual}
use vision_box_dual_cam.Threads.{resume_ip_dual, get_status_mp, set_status_mp}
use vision_box_dual_cam.Io.Sysfs.{Os}
use vision_box_dual_cam.Flow.State.{
  Box, number, show_process_state, set_flow, clear_result, set_wake, trigger, light_source, publish,
  count_tasks, dout_on, light_on,
}

-- `m = innerQ_IOS_IsEmpty(); for (i = 0; i < m; i++) innerQ_IOS_DeQ(...)` under `if (m != 1)`: the
-- number of rounds is the result of the test, which is 0 for a queue that is not empty.
unfoldable pub drain_rounds : ℕ → Box → Box
drain_rounds zero b = b
drain_rounds (suc n) b = drain_rounds n (record b { inner = (ios_de_q b.inner).2 })

unfoldable pub drain : Box → Box
unfolding drain_rounds
drain b =
    let m : ℕ = if ios_is_empty b.inner then 1 else 0 in if m == 1 then b else drain_rounds m b

-- The end of a case: the state is shown.
unfoldable pub show : Camera → Box → Box
unfolding show_process_state
show c b = record b { shown = show_process_state (number (at c b.nodes).gi_flow) b.shown }

module _ {Json : Type 0} (os : Os) (cmds : Commands Json) where
  -- `case GI_START`.
  unfoldable pub flow_start : Camera → (stack : String → ℕ) → Box → Box
  unfolding drain set_flow clear_result set_wake dout_on light_on
  flow_start c stack b =
      let (ret, b1) = dout_on os c "AutoDone" 0 (stack "AutoDone") (drain b) in
      elim ret [
        | pos n ↦
            if n == 1
            then (let b2 : Box = set_wake c 0 (light_on os c 0 (clear_result c b1)) in
                set_flow c gi_wait_trigger
                  (record b2 { threads = set_status_mp failure b2.threads }))
            else b1
        | negsuc n ↦ b1
      ]

  -- The message that `case GI_WAIT_TRIGGER` took: the camera's own trigger starts a run, and whatever
  -- else it is, the other camera's trigger goes into the queue in its place.
  unfoldable pub take_trigger : Camera → (stack : String → ℕ) → String → Box → Box
  unfolding set_flow dout_on light_on
  take_trigger c stack msg b =
      if streq msg (trigger c)
      then set_flow c gi_excute_auto_gi
          (light_on os c 1 (dout_on os c "Result" 0 (stack "Result") b).1)
      else record b { inner = (ios_en_q (trigger (other c)) b.inner).1 }

  -- `case GI_WAIT_TRIGGER`.
  unfoldable pub flow_wait_trigger : Camera → (stack : String → ℕ) → Box → Box
  unfolding take_trigger
  flow_wait_trigger c stack b =
      if ios_is_empty b.inner
      then b
      else (let (ret, msg, q) = ios_de_q b.inner in
          elim msg [ some text ↦ take_trigger c stack text (record b { inner = q }) | none ↦ b ])

  -- The part of `case GI_EXCUTE_AUTO_GI` under `if (wakeIPSFlag == 0)`: the mode and the command are
  -- queued and the image thread is resumed.
  unfoldable pub wake_ips : Camera → Box → Option Box
  unfolding count_tasks set_wake
  wake_ips c b =
      let a : Algo = b.algo in
      let mode : ExpansionMode = record no_mode { trigger_mode_activat = 1 } in
      let a1 : Algo = record a {
        args = record a.args { flg_trigger_mode_activate = 1 };
        queues = (ex_mode_dual_en_q c mode a.queues).1;
      } in
      elim (method_assign_dual cmds trigger_mode_set_param "{ \"Enb_TriggerMode_Activate\": 1 }" c
        a1) [
          | some (r, a2) ↦ some (
              set_wake c 1 (record b {
                algo = a2;
                threads = resume_ip_dual c (count_tasks c a2.queues b.threads);
              }))
          | none ↦ none
        ]

  -- The rest of the case: the flow status decides.
  unfoldable pub flow_status : Camera → ℤ → Box → Box
  unfolding set_flow
  flow_status c (pos n) b =
      if n == 0
      then set_flow c gi_get_test_result b
      else if n == 1
      then set_flow c gi_get_test_result b
      else set_flow c gi_excute_auto_gi b
  flow_status c (negsuc n) b = set_flow c gi_excute_auto_gi b

  -- `case GI_EXCUTE_AUTO_GI`.
  unfoldable pub flow_excute : Camera → Box → Option Box
  unfolding wake_ips flow_status
  flow_excute c b = elim (if at c b.wake_ips_flag == 0 then wake_ips c b else some b) [
    | some b1 ↦ some (flow_status c (get_status_mp b1.threads) b1)
    | none ↦ none
  ]

  -- The first half of `case GI_GET_TEST_RESULT`: a message of the image thread puts the light out.
  unfoldable pub take_done : Camera → Box → Box
  unfolding light_on
  take_done c b =
      if ips_dual_is_empty c b.inner
      then b
      else light_on os c 0 (record b { inner = (ips_dual_de_q c b.inner).2 })

  -- The second half once a verdict is there. The result of the first output call is tested, but the
  -- state is GI_START either way.
  unfoldable pub report_verdict : Camera → (stack : String → ℕ) → ℕ → Box → Box
  unfolding set_flow dout_on publish
  report_verdict c stack passed b =
      let b1 : Box = set_flow c gi_start (dout_on os c "Result" passed (stack "Result") b).1 in
      let (ret, b2) = dout_on os c "AutoDone" 1 (stack "AutoDone") b1 in
      elim ret [ pos n ↦ if n == 1 then publish c b2 else b2 | negsuc n ↦ b2 ]

  -- `case GI_GET_TEST_RESULT`.
  unfoldable pub flow_get_test_result : Camera → (stack : String → ℕ) → Box → Box
  unfolding take_done report_verdict
  flow_get_test_result c stack b =
      let b1 : Box = take_done c b in
      if streq (at c b1.nodes).test_result "PASS"
      then report_verdict c stack 1 b1
      else if streq (at c b1.nodes).test_result "NG"
      then report_verdict c stack 0 b1
      else b1

  -- `switch (giFlow)`.
  unfoldable pub flow_case : GiFlow → Camera → (stack : String → ℕ) → Box → Option Box
  unfolding flow_start flow_wait_trigger flow_excute flow_get_test_result
  flow_case gi_start c stack b = some (flow_start c stack b)
  flow_case gi_wait_trigger c stack b = some (flow_wait_trigger c stack b)
  flow_case gi_excute_auto_gi c stack b = flow_excute c b
  flow_case gi_get_test_result c stack b = some (flow_get_test_result c stack b)

  -- `switch (autoMode)` under the test of `Active`.
  unfoldable pub handler : Camera → (stack : String → ℕ) → Box → Option Box
  unfolding flow_case show
  handler c stack b =
      let n : ProcessNode = at c b.nodes in
      if n.active == 0 then some b else elim n.auto_mode [
        | glue_inspection ↦ elim (flow_case n.gi_flow c stack b) [
          | some b1 ↦ some (show c b1)
          | none ↦ none
        ]
        | basic_inspection ↦ some b
        | ai_inspection ↦ some b
        | non_auto ↦ some b
      ]

  unfoldable pub process_flow_handler : (stack : String → ℕ) → Box → Option Box
  unfolding handler
  process_flow_handler stack b = handler camera_1 stack b

  unfoldable pub process_flow_handler_dual : (stack : String → ℕ) → Box → Option Box
  unfolding handler
  process_flow_handler_dual stack b = handler camera_2 stack b
