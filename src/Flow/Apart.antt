-- ===== src/Flow/Apart.antt =====
-- What a flow handler leaves alone.
use vision_box_dual_cam.Base.{
  ℕ, ◌≡◌, refl, String, some, arith, subst, some-injective, ap, ◌∙◌, inl, inr,
}
use vision_box_dual_cam.Base.Camera.{Camera, at, other}
use vision_box_dual_cam.Node.{
  GiFlow, gi_start, gi_wait_trigger, gi_excute_auto_gi, gi_get_test_result, ProcessNode,
}
use vision_box_dual_cam.Io.Sysfs.{Os}
use vision_box_dual_cam.Queue.Algo.{Task, ExpansionMode, ex_mode_dual_en_q, tasks_dual_en_q}
use vision_box_dual_cam.Queue.Inner.{ips_dual_de_q, ios_de_q, ios_en_q}
use vision_box_dual_cam.Threads.{resume_ip_dual, set_status_mp}
use vision_box_dual_cam.Algo.Assign.{Commands, method_assign_dual, make_task}
use vision_box_dual_cam.Threads.Worker.{Gate}
use vision_box_dual_cam.Base.{List}
use vision_box_dual_cam.Flow.State.{
  Box, set_flow, dout_on, light_on, clear_result, set_wake, publish, count_tasks,
}
use vision_box_dual_cam.Flow.Cases.{handler-cases}
use vision_box_dual_cam.Flow.{
  handler, flow_case, flow_start, flow_wait_trigger, flow_excute, flow_get_test_result,
  take_trigger, flow_status, wake_ips, report_verdict, take_done, show, drain, drain_rounds,
}

-- All that belongs to one camera: its node, its queues, its flag and its thread.
pub record View : Type 0 where
  pub node : ProcessNode
  pub tasks : List Task
  pub modes : List ExpansionMode
  pub done_messages : List String
  pub wake : ℕ
  pub gate : Gate

unfoldable pub view : Camera → Box → View
view c b = record {
  node = at c b.nodes;
  tasks = at c b.algo.queues.tasks_dual;
  modes = at c b.algo.queues.ex_modes_dual;
  done_messages = at c b.inner.ips_dual;
  wake = at c b.wake_ips_flag;
  gate = at c b.threads.ip;
}

module _ {Json : Type 0} (os : Os) (cmds : Commands Json) where
  start_apart :
      (c : Camera) (stack : String → ℕ) (b : Box)
      → view (other c) (flow_start os cmds c stack b) ≡ view (other c) b
  unfolding view flow_start drain drain_rounds set_flow dout_on light_on clear_result set_wake
      set_status_mp ios_de_q
  start_apart c stack b = ground arith

  wait_apart :
      (c : Camera) (stack : String → ℕ) (b : Box)
      → view (other c) (flow_wait_trigger os cmds c stack b) ≡ view (other c) b
  unfolding view flow_wait_trigger take_trigger set_flow dout_on light_on ios_de_q ios_en_q
  wait_apart c stack b = ground arith

  excute_apart :
      (c : Camera) (b b' : Box)
      → flow_excute os cmds c b ≡ some b'
      → view (other c) b' ≡ view (other c) b
  unfolding view flow_excute wake_ips flow_status set_flow set_wake count_tasks method_assign_dual
      make_task ex_mode_dual_en_q tasks_dual_en_q resume_ip_dual
  excute_apart c b b' g = ground arith

  result_apart :
      (c : Camera) (stack : String → ℕ) (b : Box)
      → view (other c) (flow_get_test_result os cmds c stack b) ≡ view (other c) b
  unfolding view flow_get_test_result take_done report_verdict set_flow dout_on light_on publish
      ips_dual_de_q
  result_apart c stack b = ground arith

  case_apart :
      (f : GiFlow) (c : Camera) (stack : String → ℕ) (b b' : Box)
      → flow_case os cmds f c stack b ≡ some b'
      → view (other c) b' ≡ view (other c) b
  unfolding flow_case
  case_apart gi_start c stack b b' h =
      subst (λ x. view (other c) x ≡ view (other c) b) (some-injective _ _ h)
        (start_apart c stack b)
  case_apart gi_wait_trigger c stack b b' h =
      subst (λ x. view (other c) x ≡ view (other c) b) (some-injective _ _ h) (wait_apart c stack b)
  case_apart gi_excute_auto_gi c stack b b' h = excute_apart c b b' h
  case_apart gi_get_test_result c stack b b' h =
      subst (λ x. view (other c) x ≡ view (other c) b) (some-injective _ _ h)
        (result_apart c stack b)

  pub handler-view-other :
      (c : Camera) (stack : String → ℕ) (b b' : Box)
      → handler os cmds c stack b ≡ some b'
      → view (other c) b' ≡ view (other c) b
  handler-view-other c stack b b' h = elim (handler-cases os cmds c stack b b' h) [
    | inl e ↦ ap (view (other c)) e
    | inr (b1, g, e) ↦
        ap (view (other c)) e ∙ (view-show b1 ∙ case_apart (at c b.nodes).gi_flow c stack b b1 g)
  ]
    where
      view-show : (b1 : Box) → view (other c) (show c b1) ≡ view (other c) b1
      view-show b1 = unfold show view in refl
