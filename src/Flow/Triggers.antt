-- ===== src/Flow/Triggers.antt =====
-- What the flow handlers do with the triggers in `innerQ_IOS`.
use vision_box_dual_cam.Base.{
  ℕ, ◌≡◌, refl, sym, ap, ◌∙◌, subst, String, some, arith, true, false, inl, inr, List, [], ◌∷◌,
  ◌++◌, Bool-cases, streq, streq_iff, streq_refl, some-injective,
}
use vision_box_dual_cam.Base.Camera.{Camera, camera_1, camera_2, at, other}
use vision_box_dual_cam.Node.{
  GiFlow, gi_start, gi_wait_trigger, gi_excute_auto_gi, gi_get_test_result,
}
use vision_box_dual_cam.Io.Sysfs.{Os}
use vision_box_dual_cam.Algo.Assign.{Commands}
use vision_box_dual_cam.Queue.Inner.{ios_is_empty, ios_de_q, ios_en_q, ips_dual_de_q}
use vision_box_dual_cam.Queue.Deque.{en_q, de_q, is_empty}
use vision_box_dual_cam.Flow.State.{
  Box, trigger, set_flow, dout_on, light_on, clear_result, set_wake, publish,
}
use vision_box_dual_cam.Flow.{
  handler, flow_case, show, flow_start, flow_wait_trigger, take_trigger, flow_excute,
  flow_get_test_result, take_done, report_verdict, drain, drain_rounds, wake_ips, flow_status,
}
use vision_box_dual_cam.Flow.Cases.{handler-cases}

-- Every message is one of the two triggers, which is all that the program puts into the queue.
abbrev pub AllTriggers : List String → Type 0
AllTriggers [] = Unit
AllTriggers (m ∷ ms) = ((c : Camera) × (m ≡ trigger c)) × AllTriggers ms

-- What a call for camera `c` may do to the queue: leave it, take the camera's own trigger from its head,
-- or move the other camera's trigger from the head to the end.
pub data Handled (c : Camera) : List String → List String → Type 0 where
  left : {q : List String} → Handled c q q
  taken : {q : List String} → Handled c (trigger c ∷ q) q
  moved_back : {q : List String} → Handled c (trigger (other c) ∷ q) (q ++ (trigger (other c) ∷ []))

trigger-other :
    (c d : Camera) → streq (trigger d) (trigger c) ≡ false → trigger d ≡ trigger (other c)
trigger-other camera_1 camera_1 h = ground (arith, h, streq_refl "Din_Trigger")
trigger-other camera_1 camera_2 h = refl
trigger-other camera_2 camera_1 h = refl
trigger-other camera_2 camera_2 h = ground (arith, h, streq_refl "Din_Trigger_Dual")

module _ {Json : Type 0} (os : Os) (cmds : Commands Json) where
  start_inner :
      (c : Camera) (stack : String → ℕ) (b : Box) → (flow_start os cmds c stack b).inner ≡ b.inner
  unfolding flow_start drain drain_rounds set_flow dout_on light_on clear_result set_wake
  start_inner c stack b = ground arith

  excute_inner : (c : Camera) (b b' : Box) → flow_excute os cmds c b ≡ some b' → b'.inner ≡ b.inner
  unfolding flow_excute wake_ips flow_status set_flow set_wake
  excute_inner c b b' h = ground arith

  result_ios :
      (c : Camera) (stack : String → ℕ) (b : Box)
      → (flow_get_test_result os cmds c stack b).inner.ios ≡ b.inner.ios
  unfolding flow_get_test_result take_done report_verdict set_flow dout_on light_on publish
      ips_dual_de_q
  result_ios c stack b = ground arith

  take_own :
      (c : Camera) (stack : String → ℕ) (m : String) (b : Box)
      → streq m (trigger c) ≡ true
      → (take_trigger os cmds c stack m b).inner.ios ≡ b.inner.ios
  unfolding take_trigger set_flow dout_on light_on
  take_own c stack m b h = ground arith

  take_foreign :
      (c : Camera) (stack : String → ℕ) (m : String) (b : Box)
      → streq m (trigger c) ≡ false
      → (take_trigger os cmds c stack m b).inner.ios ≡ b.inner.ios ++ (trigger (other c) ∷ [])
  unfolding take_trigger ios_en_q en_q
  take_foreign c stack m b h = ground arith

  head-Handled :
      (c d : Camera) (stack : String → ℕ) (q : List String) (b : Box)
      → b.inner.ios ≡ q
      → Handled c (trigger d ∷ q) (take_trigger os cmds c stack (trigger d) b).inner.ios
  head-Handled c d stack q b h = elim (Bool-cases (streq (trigger d) (trigger c))) [
    | inl t ↦
        subst (λ m. Handled c (m ∷ q) (take_trigger os cmds c stack (trigger d) b).inner.ios)
          (sym ((streq_iff _ _).0 t))
          (subst (Handled c (trigger c ∷ q)) (sym (take_own c stack (trigger d) b t ∙ h)) taken)
    | inr f ↦
        subst (λ m. Handled c (m ∷ q) (take_trigger os cmds c stack (trigger d) b).inner.ios)
          (sym (trigger-other c d f))
          (subst (Handled c (trigger (other c) ∷ q))
            (sym (take_foreign c stack (trigger d) b f ∙ ap (λ r. r ++ (trigger (other c) ∷ [])) h))
            moved_back)
  ]

  wait_nil :
      (c : Camera) (stack : String → ℕ) (b : Box)
      → b.inner.ios ≡ []
      → (flow_wait_trigger os cmds c stack b).inner.ios ≡ []
  unfolding flow_wait_trigger ios_is_empty ios_de_q is_empty de_q
  wait_nil c stack b h = ground arith

  pub wait_cons :
      (c : Camera) (stack : String → ℕ) (m : String) (q : List String) (b : Box)
      → b.inner.ios ≡ m ∷ q
      → flow_wait_trigger os cmds c stack b
        ≡ take_trigger os cmds c stack m (record b { inner = record b.inner { ios = q } })
  unfolding flow_wait_trigger ios_is_empty ios_de_q is_empty de_q
  wait_cons c stack m q b h = ground arith

  wait-Handled :
      (c : Camera) (stack : String → ℕ) (q : List String) (b : Box)
      → b.inner.ios ≡ q
      → AllTriggers q
      → Handled c q (flow_wait_trigger os cmds c stack b).inner.ios
  wait-Handled c stack [] b h a = subst (Handled c []) (sym (wait_nil c stack b h)) left
  wait-Handled c stack (m ∷ q) b h ((d, e), a) =
      rw (wait_cons c stack m q b h)
        (rw e (head-Handled c d stack q (record b { inner = record b.inner { ios = q } }) refl))

  case-Handled :
      (f : GiFlow) (c : Camera) (stack : String → ℕ) (b b' : Box)
      → AllTriggers b.inner.ios
      → flow_case os cmds f c stack b ≡ some b'
      → Handled c b.inner.ios b'.inner.ios
  unfolding flow_case
  case-Handled gi_start c stack b b' a h =
      subst (λ x. Handled c b.inner.ios x.inner.ios) (some-injective _ _ h)
        (subst (λ x. Handled c b.inner.ios x.ios) (sym (start_inner c stack b)) left)
  case-Handled gi_wait_trigger c stack b b' a h =
      subst (λ x. Handled c b.inner.ios x.inner.ios) (some-injective _ _ h)
        (wait-Handled c stack b.inner.ios b refl a)
  case-Handled gi_excute_auto_gi c stack b b' a h =
      subst (λ x. Handled c b.inner.ios x.ios) (sym (excute_inner c b b' h)) left
  case-Handled gi_get_test_result c stack b b' a h =
      subst (λ x. Handled c b.inner.ios x.inner.ios) (some-injective _ _ h)
        (subst (Handled c b.inner.ios) (sym (result_ios c stack b)) left)

  -- Over a queue of triggers, a call of a handler, in any state, loses no trigger: it leaves the queue, or
  -- takes the camera's own trigger from the head, or moves the other camera's trigger from the head
  -- to the end. A call that does not end in a null pointer is assumed.
  pub handler-Handled :
      (c : Camera) (stack : String → ℕ) (b b' : Box)
      → AllTriggers b.inner.ios
      → handler os cmds c stack b ≡ some b'
      → Handled c b.inner.ios b'.inner.ios
  handler-Handled c stack b b' a h = elim (handler-cases os cmds c stack b b' h) [
    | inl e ↦ subst (λ x. Handled c b.inner.ios x.inner.ios) (sym e) left
    | inr (b1, g, e) ↦
        subst (λ x. Handled c b.inner.ios x.inner.ios) (sym e)
          (shown b1 (case-Handled (at c b.nodes).gi_flow c stack b b1 a g))
  ]
    where
      shown :
          (b1 : Box)
          → Handled c b.inner.ios b1.inner.ios
          → Handled c b.inner.ios (show c b1).inner.ios
      shown b1 k = unfold show in k

  -- The start state takes nothing out of the queue, whatever it holds: a trigger that arrived while the
  -- last run was going on is still there when the next one starts.
  flow_start-inner :
      (c : Camera) (stack : String → ℕ) (b b' : Box)
      → (at c b.nodes).gi_flow ≡ gi_start
      → handler os cmds c stack b ≡ some b'
      → b'.inner ≡ b.inner
  flow_start-inner c stack b b' s h = elim (handler-cases os cmds c stack b b' h) [
    | inl e ↦ ap (λ x. x.inner) e
    | inr (b1, g, e) ↦ ap (λ x. x.inner) e ∙ (shown b1 ∙ case_inner b1 g)
  ]
    where
      shown : (b1 : Box) → (show c b1).inner ≡ b1.inner
      shown b1 = unfold show in refl

      case_inner :
          (b1 : Box)
          → flow_case os cmds (at c b.nodes).gi_flow c stack b ≡ some b1
          → b1.inner ≡ b.inner
      case_inner b1 g = unfold flow_case in ground (arith, start_inner c stack b)
