-- ===== src/Flow/Verdict.antt =====
-- How a run ends: the flow status, the verdict that the web backend sends, and what is reported.
use vision_box_dual_cam.Base.{
  ℕ, ◌≡◌, ◌≢◌, ◌≤◌, refl, sym, ap, ◌∙◌, String, some, ◌==◌, arith, if◌then◌else◌, Bool, true, false,
  ◌||◌, List, [], ◌∷◌, ◌++◌, append-nil, streq,
}
use vision_box_dual_cam.Base.Int.{ℤ, pos, negsuc, failure}
use vision_box_dual_cam.Base.Camera.{Camera, camera_1, camera_2, at}
use vision_box_dual_cam.Node.{gi_start, gi_excute_auto_gi, gi_get_test_result}
use vision_box_dual_cam.Io.Sysfs.{Os}
use vision_box_dual_cam.Io.Dout.Laws.{assigned, control_dout_dual-assigned}
use vision_box_dual_cam.Algo.Assign.{Commands}
use vision_box_dual_cam.Queue.Inner.{ips_dual_is_empty, ips_dual_de_q}
use vision_box_dual_cam.Threads.{get_status_mp}
use vision_box_dual_cam.Flow.State.{Box, set_flow, dout_on, light_on, publish, autodone_resp}
use vision_box_dual_cam.Flow.{
  handler, flow_case, show, flow_excute, flow_status, flow_get_test_result, take_done,
  report_verdict,
}
use vision_box_dual_cam.Flow.Runs.{Inspecting, then_show, handler-Inspecting}

-- What the answer to the event "AutoDone" is published for: a node with an output for it.
abbrev pub answers : Camera → Box → List String
answers c b = if assigned (at c b.nodes) "AutoDone" then autodone_resp c ∷ [] else []

-- The verdicts that end a run.
abbrev pub is_verdict : String → Bool
is_verdict v = streq v "PASS" || streq v "NG"

-- What the state after the case must be, for a result text and the state before.
abbrev pub Ended : Camera → String → Box → Box → Type 0
Ended c v b b' =
    (b'.published ≡ b.published ++ (if is_verdict v then answers c b else []))
    × ((at c b'.nodes).gi_flow ≡ (if is_verdict v then gi_start else gi_get_test_result))

module _ {Json : Type 0} (os : Os) (cmds : Commands Json) where
  excute_done :
      (c : Camera) (b : Box) (n : ℕ)
      → at c b.wake_ips_flag ≢ 0
      → b.threads.mp_flow_status ≡ pos n
      → n ≤ 1
      → flow_excute os cmds c b ≡ some (set_flow c gi_get_test_result b)
  unfolding flow_excute flow_status get_status_mp
  excute_done c b n w s l = ground arith

  pub handler_done :
      (c : Camera) (stack : String → ℕ) (b : Box) (n : ℕ)
      → Inspecting c gi_excute_auto_gi b
      → at c b.wake_ips_flag ≢ 0
      → b.threads.mp_flow_status ≡ pos n
      → n ≤ 1
      → handler os cmds c stack b ≡ some (show c (set_flow c gi_get_test_result b))
  unfolding flow_case
  handler_done c stack b n i w s l =
      handler-Inspecting os cmds c gi_excute_auto_gi stack b i
      ∙ ap (then_show c) (excute_done c b n w s l)

  -- The two cameras share one flow status: while both run, a status of 0 or 1, whichever camera's image
  -- thread set it, ends both runs in the next round of the main loop.
  pub status-shared :
      (stack : String → ℕ) (b : Box) (n : ℕ)
      → Inspecting camera_1 gi_excute_auto_gi b
      → Inspecting camera_2 gi_excute_auto_gi b
      → b.wake_ips_flag.first ≢ 0
      → b.wake_ips_flag.second ≢ 0
      → b.threads.mp_flow_status ≡ pos n
      → n ≤ 1
      → (b1 : Box) × (b2 : Box) × (handler os cmds camera_1 stack b ≡ some b1)
        × (handler os cmds camera_2 stack b1 ≡ some b2)
        × (b2.nodes.first.gi_flow ≡ gi_get_test_result)
        × (b2.nodes.second.gi_flow ≡ gi_get_test_result)
  unfolding show set_flow
  status-shared stack b n i j w v s l =
      let b1 : Box = show camera_1 (set_flow camera_1 gi_get_test_result b) in
      (
        b1,
        show camera_2 (set_flow camera_2 gi_get_test_result b1),
        handler_done camera_1 stack b n i w s l,
        handler_done camera_2 stack b1 n j v s l,
        refl,
        refl,
      )

  by_ret :
      (t : Bool) (c : Camera) (b : Box) (ret : ℤ)
      → ret ≡ (if t then pos 1 else failure)
      → (at c b.nodes).gi_flow ≡ gi_start
      → let b' : Box = elim ret [ pos n ↦ if n == 1 then publish c b else b | negsuc n ↦ b ] in
        (b'.published ≡ b.published ++ (if t then autodone_resp c ∷ [] else []))
        × ((at c b'.nodes).gi_flow ≡ gi_start)
  unfolding publish
  by_ret true c b ret h f = rw h (refl, f)
  by_ret false c b ret h f = rw h (sym (append-nil b.published), f)

  report_lem :
      (c : Camera) (stack : String → ℕ) (passed : ℕ) (b : Box)
      → ((report_verdict os cmds c stack passed b).published ≡ b.published ++ answers c b)
        × ((at c (report_verdict os cmds c stack passed b).nodes).gi_flow ≡ gi_start)
  unfolding report_verdict dout_on set_flow
  report_lem camera_1 stack passed b =
      by_ret (assigned b.nodes.first "AutoDone") camera_1 _ _
        (control_dout_dual-assigned os _ "AutoDone" 1 camera_1 (stack "AutoDone") _) refl
  report_lem camera_2 stack passed b =
      by_ret (assigned b.nodes.second "AutoDone") camera_2 _ _
        (control_dout_dual-assigned os _ "AutoDone" 1 camera_2 (stack "AutoDone") _) refl

  decided :
      (u v : Bool) (c : Camera) (stack : String → ℕ) (b : Box)
      → (at c b.nodes).gi_flow ≡ gi_get_test_result
      → let b' : Box =
          if u
          then report_verdict os cmds c stack 1 b
          else if v
          then report_verdict os cmds c stack 0 b
          else b in
        (b'.published ≡ b.published ++ (if u || v then answers c b else []))
        × ((at c b'.nodes).gi_flow ≡ (if u || v then gi_start else gi_get_test_result))
  decided true v c stack b f = report_lem c stack 1 b
  decided false true c stack b f = report_lem c stack 0 b
  decided false false c stack b f = (sym (append-nil b.published), f)

  result_lem :
      (c : Camera) (stack : String → ℕ) (b : Box)
      → (at c b.nodes).gi_flow ≡ gi_get_test_result
      → Ended c (at c b.nodes).test_result b (flow_get_test_result os cmds c stack b)
  unfolding flow_get_test_result take_done light_on
  result_lem c stack b f = by_empty (ips_dual_is_empty c b.inner)
    where
      by_empty :
          (t : Bool)
          → let d : Box =
              if t then b else light_on os c 0 (record b { inner = (ips_dual_de_q c b.inner).2 }) in
            Ended c (at c b.nodes).test_result b (
              if streq (at c d.nodes).test_result "PASS"
              then report_verdict os cmds c stack 1 d
              else if streq (at c d.nodes).test_result "NG"
              then report_verdict os cmds c stack 0 d
              else d)
      by_empty true =
          decided (streq (at c b.nodes).test_result "PASS") (streq (at c b.nodes).test_result "NG")
            c stack b f
      by_empty false =
          decided (streq (at c b.nodes).test_result "PASS") (streq (at c b.nodes).test_result "NG")
            c stack (light_on os c 0 (record b { inner = (ips_dual_de_q c b.inner).2 })) f

  -- A run that waits for its verdict ends exactly when the verdict is "PASS" or "NG": the handler then
  -- goes back to the start, whether or not an output is assigned to "Result", and publishes one
  -- answer, the camera's own, exactly if the node has an output for "AutoDone". For any other text it
  -- keeps waiting and publishes nothing.
  pub get_test_result-Ended :
      (c : Camera) (stack : String → ℕ) (b : Box)
      → Inspecting c gi_get_test_result b
      → (b' : Box) × (handler os cmds c stack b ≡ some b') × Ended c (at c b.nodes).test_result b b'
  unfolding flow_case show
  get_test_result-Ended c stack b i =
      let (act, mode, f) = i in
      (
        show c (flow_get_test_result os cmds c stack b),
        handler-Inspecting os cmds c gi_get_test_result stack b i,
        result_lem c stack b f,
      )
