-- ===== src/Image/Laws.antt =====
-- How a run ends, and what is recorded for the next one.
use vision_box_dual_cam.Base.{
  ℕ, zero, suc, ◌≡◌, ◌≢◌, refl, sym, ap, ◌∙◌, subst, Bool, true, false, List, [], ◌∷◌, ◌++◌, none,
  String, if◌then◌else◌, arith, ◌⊎◌, inl, inr,
}
use vision_box_dual_cam.Base.Int.{ℤ, pos, success, failure}
use vision_box_dual_cam.Base.Camera.{Camera, camera_1, camera_2, at}
use vision_box_dual_cam.Queue.Deque.{en_q}
use vision_box_dual_cam.Queue.Inner.{InnerQueues, ips_dual_en_q}
use vision_box_dual_cam.Queue.Algo.{Task, ExpansionMode}
use vision_box_dual_cam.Threads.{resume_mp}
use vision_box_dual_cam.Image.{Methods, Image, nonzero, reply, finish}
use vision_box_dual_cam.Image.Auto.{
  sync_activate, prepare, give_up, keep_result, run_method, run_recorded, auto_run,
}

-- The message and the status that a run leaves, one of three.
pub data Verdict : Type 0 where
  done refused broken : Verdict

abbrev pub message : Verdict → String
message done = "Auto_Mode_Done"
message refused = "Auto_Mode_Fail"
message broken = "Auto_Mode_Fail"

abbrev pub status : Verdict → ℤ
status done = pos 1
status refused = success
status broken = failure

module _ {W : Type 0} (methods : Methods W) where
  -- The messages for the camera's handler and the status, told once on top of those of the state `s`.
  abbrev pub Told : Camera → Verdict → Image W → Image W → Type 0
  Told id v s s' =
      (at id s'.inner.ips_dual ≡ at id s.inner.ips_dual ++ (message v ∷ []))
      × (s'.threads.mp_flow_status ≡ status v)

  prepare_keeps : (t : Task) (s : Image W) → (prepare methods t s).1.inner ≡ s.inner
  unfolding prepare sync_activate
  prepare_keeps t s = ground arith

  run_keeps :
      (id : Camera) (g : Bool) (t : Task) (s : Image W)
      → (run_method methods id g t s).1.inner ≡ s.inner
  unfolding run_method
  run_keeps id g t s = ground arith

  result_keeps : (t : Task) (k : ℕ) (s : Image W) → (keep_result methods t k s).1.inner ≡ s.inner
  unfolding keep_result reply
  result_keeps t k s = ground arith

  gives_up :
      (id : Camera) (trig t : Task) (s : Image W) → Told id broken s (give_up methods id trig t s)
  unfolding give_up reply finish ips_dual_en_q en_q resume_mp
  gives_up id trig t s = ground arith

  -- The loop over the recorded tasks tells the handler nothing where it gets to the end, and once where a
  -- task fails.
  abbrev pub Ran : Camera → Image W → Bool × Image W → Type 0
  Ran id s (true, s') = Told id broken s s'
  Ran id s (false, s') = s'.inner ≡ s.inner

  moved_Told :
      (id : Camera) (v : Verdict) (s s1 s' : Image W)
      → s1.inner ≡ s.inner
      → Told id v s1 s'
      → Told id v s s'
  moved_Told id v s s1 s' e (m, t) =
      (m ∙ ap (λ (q : InnerQueues). at id q.ips_dual ++ (message v ∷ [])) e, t)

  moved_Ran :
      (id : Camera) (s s1 : Image W) (r : Bool × Image W)
      → s1.inner ≡ s.inner
      → Ran id s1 r
      → Ran id s r
  moved_Ran id s s1 (true, s') e t = moved_Told id broken s s1 s' e t
  moved_Ran id s s1 (false, s') e h = h ∙ e

  either_Ran :
      (bad : Bool) (id : Camera) (s s' : Image W) (r : Bool × Image W)
      → Told id broken s s'
      → Ran id s r
      → Ran id s (if bad then (true, s') else r)
  either_Ran true id s s' r t h = t
  either_Ran false id s s' r t h = h

  run_recorded-Ran :
      (id : Camera) (trig : Task) (ts : List Task) (k : ℕ) (s : Image W)
      → Ran id s (run_recorded methods id trig ts k s)
  unfolding run_recorded
  run_recorded-Ran id trig [] k s = refl
  run_recorded-Ran id trig (t ∷ ts) k s =
      let (t1, s1) = prepare methods t s in
      let (bad, s2) = run_method methods id true t1 s1 in
      let (k3, s3) = keep_result methods t1 k s2 in
      let e2 : s2.inner ≡ s.inner = run_keeps id true t1 s1 ∙ prepare_keeps t s in
      either_Ran bad id s (give_up methods id trig t1 s2) (run_recorded methods id trig ts k3 s3)
        (moved_Told id broken s s2 (give_up methods id trig t1 s2) e2 (gives_up id trig t1 s2))
        (moved_Ran id s s3 (run_recorded methods id trig ts k3 s3) (result_keeps t1 k s2 ∙ e2)
          (run_recorded-Ran id trig ts k3 s3))

  finished :
      (id : Camera) (v : Verdict) (s s1 : Image W)
      → s1.inner ≡ s.inner
      → Told id v s (finish id (message v) (status v) s1)
  unfolding finish ips_dual_en_q en_q resume_mp
  finished camera_1 v s s1 e =
      (ap (λ (q : InnerQueues). q.ips_dual.first ++ (message v ∷ [])) e, refl)
  finished camera_2 v s s1 e =
      (ap (λ (q : InnerQueues). q.ips_dual.second ++ (message v ∷ [])) e, refl)

  ended_Told :
      (id : Camera) (s : Image W) (r : Bool × Image W)
      → Ran id s r
      → Told id broken s (if r.0 then r.1 else finish id "Auto_Mode_Done" (pos 1) r.1)
        ⊎ Told id done s (if r.0 then r.1 else finish id "Auto_Mode_Done" (pos 1) r.1)
  ended_Told id s (true, s') t = inl t
  ended_Told id s (false, s') e = inr (finished id done s s' e)

  refused_lem :
      (id : Camera) (trig : Task) (mode : ExpansionMode) (s : Image W)
      → (nonzero mode.trigger_mode_activat ≡ false) ⊎ (s.recorded ≡ [])
      → Told id refused s (auto_run methods id trig mode s)
  unfolding auto_run finish ips_dual_en_q en_q resume_mp
  refused_lem id trig mode s h = ground arith

  branch :
      (a : Bool) (q ts : List Task) (t : Task) (x y : Image W) (go : List Task → Image W)
      → a ≡ true
      → q ≡ t ∷ ts
      → (if a then elim q as (λ _. Image W) [ [] ↦ x | u ∷ us ↦ go (u ∷ us) ] else y) ≡ go (t ∷ ts)
  branch a q ts t x y go h e = rw h (rw e refl)

  ran_lem :
      (id : Camera) (trig t : Task) (ts : List Task) (mode : ExpansionMode) (s : Image W)
      → nonzero mode.trigger_mode_activat ≡ true
      → s.recorded ≡ t ∷ ts
      → Told id broken s (auto_run methods id trig mode s)
        ⊎ Told id done s (auto_run methods id trig mode s)
  unfolding auto_run reply
  ran_lem id trig t ts mode s h e =
      let s0 : Image W = reply trig.method none (record s {
        enb_trigger_mode_activate = nonzero mode.trigger_mode_activat;
        enb_auto_running_mode_activate = true;
      }) in
      let go : List Task → Image W = λ q.
        let (bad, s2) = run_recorded methods id trig q 1 s0 in
        if bad then s2 else finish id "Auto_Mode_Done" (pos 1) s2 in
      subst (λ x. Told id broken s x ⊎ Told id done s x)
        (sym (branch (nonzero mode.trigger_mode_activat) s.recorded ts t _ _ go h e))
        (ended_Told id s (run_recorded methods id trig (t ∷ ts) 1 s0)
          (run_recorded-Ran id trig (t ∷ ts) 1 s0))

  tasks_cases : (q : List Task) → (q ≡ []) ⊎ ((t : Task) × (ts : List Task) × (q ≡ t ∷ ts))
  tasks_cases [] = inl refl
  tasks_cases (t ∷ ts) = inr (t, ts, refl)

  nonzero_cases : (n : ℕ) → ((n ≡ 0) × (nonzero n ≡ false)) ⊎ ((n ≢ 0) × (nonzero n ≡ true))
  nonzero_cases zero = unfold nonzero in ground arith
  nonzero_cases (suc n) = unfold nonzero in ground arith

  -- Every trigger command is told to the camera's handler exactly once. A trigger that is not active, or for
  -- which no task was recorded, is refused: a fail message and the status 0. Any other run ends with
  -- a fail message and the status -1, or with a done message and the status 1.
  pub auto_run-Told :
      (id : Camera) (trig : Task) (mode : ExpansionMode) (s : Image W)
      → (((mode.trigger_mode_activat ≡ 0) ⊎ (s.recorded ≡ []))
          × Told id refused s (auto_run methods id trig mode s))
        ⊎ ((mode.trigger_mode_activat ≢ 0)
            × (s.recorded ≢ [])
            × (Told id broken s (auto_run methods id trig mode s)
                ⊎ Told id done s (auto_run methods id trig mode s)))
  auto_run-Told id trig mode s = elim (nonzero_cases mode.trigger_mode_activat) [
    | inl (z, h) ↦ inl (inl z, refused_lem id trig mode s (inl h))
    | inr (nz, h) ↦ elim (tasks_cases s.recorded) [
      | inl e ↦ inl (inr e, refused_lem id trig mode s (inr e))
      | inr (t, ts, e) ↦ inr (nz, (λ n. nonempty t ts (sym e ∙ n)), ran_lem id trig t ts mode s h e)
    ]
  ]
    where
      nonempty : (t : Task) (ts : List Task) → (t ∷ ts) ≢ []
      nonempty t ts h = ground arith
