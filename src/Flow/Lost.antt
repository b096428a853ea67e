-- ===== src/Flow/Lost.antt =====
-- The flow status of one camera's run, and the start state of the other camera.
use vision_box_dual_cam.Base.{ℕ, zero, suc, ◌≡◌, ◌≢◌, refl, sym, ap, ◌∙◌, subst, String, some, true}
use vision_box_dual_cam.Base.Int.{failure}
use vision_box_dual_cam.Base.Camera.{Camera, camera_1, camera_2, at, other}
use vision_box_dual_cam.Node.{gi_start, gi_excute_auto_gi}
use vision_box_dual_cam.Io.Sysfs.{Os}
use vision_box_dual_cam.Io.Dout.Laws.{assigned}
use vision_box_dual_cam.Algo.Assign.{Commands}
use vision_box_dual_cam.Flow.State.{Box, set_flow}
use vision_box_dual_cam.Flow.{handler, show}
use vision_box_dual_cam.Flow.Runs.{Inspecting, handler_times, handler_times-suc}
use vision_box_dual_cam.Flow.Apart.{View, view, handler-view-other}
use vision_box_dual_cam.Flow.Excute.{handler_again}
use vision_box_dual_cam.Flow.Start.{Started, start-Started}

module _ {Json : Type 0} (os : Os) (cmds : Commands Json) where
  -- A run whose command is with the image thread, and whose status is not there.
  abbrev pub Waiting : Camera → Box → Type 0
  Waiting c b =
      Inspecting c gi_excute_auto_gi b
      × (at c b.wake_ips_flag ≡ 1)
      × (b.threads.mp_flow_status ≡ failure)

  again_Waiting :
      (c : Camera) (b : Box) → Waiting c b → Waiting c (show c (set_flow c gi_excute_auto_gi b))
  unfolding show set_flow
  again_Waiting camera_1 b ((act, mode, f), w, s) = ((act, mode, refl), w, s)
  again_Waiting camera_2 b ((act, mode, f), w, s) = ((act, mode, refl), w, s)

  pub keeps_Waiting :
      (n : ℕ) (c : Camera) (stack : String → ℕ) (b : Box)
      → Waiting c b
      → (b' : Box) × (handler_times os cmds n c stack b ≡ some b') × Waiting c b'
  unfolding handler_times
  keeps_Waiting zero c stack b w = (b, refl, w)
  keeps_Waiting (suc n) c stack b (i, w, s) =
      let (b2, h, w2) = keeps_Waiting n c stack _ (again_Waiting c b (i, w, s)) in
      (
        b2,
        handler_times-suc os cmds n c stack b _ (handler_again os cmds c stack b 0 i w s) ∙ h,
        w2,
      )

  moved_Waiting :
      (c : Camera) (b b' : Box)
      → view c b' ≡ view c b
      → Inspecting c gi_excute_auto_gi b
      → at c b.wake_ips_flag ≡ 1
      → b'.threads.mp_flow_status ≡ failure
      → Waiting c b'
  unfolding view
  moved_Waiting c b b' e (act, mode, f) w s =
      let node : at c b'.nodes ≡ at c b.nodes = ap (λ (v : View). v.node) e in
      (
        (
          subst (λ n. n.active ≢ 0) (sym node) act,
          ap (λ n. n.auto_mode) node ∙ mode,
          ap (λ n. n.gi_flow) node ∙ f,
        ),
        ap (λ (v : View). v.wake) e ∙ w,
        s,
      )

  -- A status can be lost: when one camera runs and its image thread has set the flow status, whatever it
  -- set, and the handler of the other camera is in its start state with an output for "AutoDone" and
  -- is called first, then the status is reset; however many rounds of the main loop follow, while
  -- nothing else writes, the run does not end.
  pub status-Waiting :
      (n : ℕ) (c : Camera) (stack : String → ℕ) (b : Box)
      → Inspecting c gi_excute_auto_gi b
      → at c b.wake_ips_flag ≡ 1
      → Inspecting (other c) gi_start b
      → assigned (at (other c) b.nodes) "AutoDone" ≡ true
      → (b1 : Box) × (b2 : Box) × (handler os cmds (other c) stack b ≡ some b1)
        × (handler_times os cmds n c stack b1 ≡ some b2)
        × Waiting c b2
  status-Waiting n c stack b i w j a =
      let (b1, g, s) = start-Started os cmds (other c) stack b j in
      let (wait, (result, wake, status), inner) =
        subst (λ t. Started os cmds t (other c) b b1) a s in
      let (b2, h, w2) = keeps_Waiting n c stack b1 (
        moved_Waiting c b b1 (same_view c b1 (handler-view-other os cmds (other c) stack b b1 g)) i
          w status) in
      (b1, b2, g, h, w2)
    where
      same_view :
          (c : Camera) (b' : Box)
          → view (other (other c)) b' ≡ view (other (other c)) b
          → view c b' ≡ view c b
      same_view camera_1 b' e = e
      same_view camera_2 b' e = e
