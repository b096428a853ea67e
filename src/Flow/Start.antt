-- ===== src/Flow/Start.antt =====
-- The start state: what a run needs before it can wait for its trigger.
use vision_box_dual_cam.Base.{
  ℕ, ◌≡◌, refl, sym, subst, String, some, ◌==◌, arith, if◌then◌else◌, Bool, true, false,
}
use vision_box_dual_cam.Base.Int.{ℤ, pos, negsuc, failure}
use vision_box_dual_cam.Base.Camera.{Camera, camera_1, camera_2, at}
use vision_box_dual_cam.Node.{gi_start, gi_wait_trigger}
use vision_box_dual_cam.Io.Sysfs.{Os}
use vision_box_dual_cam.Io.Dout.Laws.{assigned, control_dout_dual-assigned}
use vision_box_dual_cam.Algo.Assign.{Commands}
use vision_box_dual_cam.Threads.{set_status_mp}
use vision_box_dual_cam.Flow.State.{Box, set_flow, dout_on, light_on, clear_result, set_wake}
use vision_box_dual_cam.Flow.{handler, flow_case, show, flow_start, drain, drain_rounds}
use vision_box_dual_cam.Flow.Runs.{Inspecting, handler-Inspecting}

-- What the start state makes of the camera's data once the output for "AutoDone" is off.
abbrev pub Cleared : Camera → Box → Type 0
Cleared c b =
    ((at c b.nodes).test_result ≡ "")
    × (at c b.wake_ips_flag ≡ 0)
    × (b.threads.mp_flow_status ≡ failure)

drain_keeps : (b : Box) → drain b ≡ b
unfolding drain drain_rounds
drain_keeps b = ground arith

module _ {Json : Type 0} (os : Os) (cmds : Commands Json) where
  -- The two ways in which the start state is left or kept.
  abbrev pub Started : Bool → Camera → Box → Box → Type 0
  Started true c b b' = Inspecting c gi_wait_trigger b' × Cleared c b' × (b'.inner ≡ b.inner)
  Started false c b b' = Inspecting c gi_start b' × (b'.inner ≡ b.inner)

  by_ret :
      (t : Bool) (c : Camera) (b0 b : Box) (ret : ℤ)
      → b.inner ≡ b0.inner
      → ret ≡ (if t then pos 1 else failure)
      → Inspecting c gi_start b
      → let b2 : Box = set_wake c 0 (light_on os c 0 (clear_result c b)) in
        let b3 : Box =
          set_flow c gi_wait_trigger (record b2 { threads = set_status_mp failure b2.threads }) in
        Started t c b0 (show c (elim ret [ pos n ↦ if n == 1 then b3 else b | negsuc n ↦ b ]))
  unfolding set_flow clear_result set_wake light_on set_status_mp show
  by_ret true camera_1 b0 b ret k h (act, mode, f) = rw h ((act, mode, refl), (refl, refl, refl), k)
  by_ret true camera_2 b0 b ret k h (act, mode, f) = rw h ((act, mode, refl), (refl, refl, refl), k)
  by_ret false camera_1 b0 b ret k h i = rw h (i, k)
  by_ret false camera_2 b0 b ret k h i = rw h (i, k)

  drained :
      (c : Camera) (stack : String → ℕ) (b : Box)
      → Inspecting c gi_start (drain b)
      → Started
          (assigned (at c (drain b).nodes) "AutoDone")
          c
          (drain b)
          (show c (flow_start os cmds c stack b))
  unfolding flow_start dout_on
  drained c stack b i =
      by_ret (assigned (at c (drain b).nodes) "AutoDone") c (drain b) _ _ refl
        (control_dout_dual-assigned os (drain b).nodes "AutoDone" 0 c (stack "AutoDone")
          (drain b).dout)
        i

  -- The start state goes on to wait for a trigger exactly if the node has an output for "AutoDone": then
  -- the old verdict, the wake flag and the flow status are reset. A node without such an output stays
  -- in the start state. The message queues are as they were in both cases.
  pub start-Started :
      (c : Camera) (stack : String → ℕ) (b : Box)
      → Inspecting c gi_start b
      → (b' : Box) × (handler os cmds c stack b ≡ some b')
        × Started (assigned (at c b.nodes) "AutoDone") c b b'
  unfolding flow_case
  start-Started c stack b i = (
    show c (flow_start os cmds c stack b),
    handler-Inspecting os cmds c gi_start stack b i,
    subst
        (λ d.
          Started (assigned (at c d.nodes) "AutoDone") c d (show c (flow_start os cmds c stack b)))
        (drain_keeps b) (drained c stack b (subst (Inspecting c gi_start) (sym (drain_keeps b)) i)),
  )
