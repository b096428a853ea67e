-- ===== src/Flow/Moves.antt =====
-- Which state a flow handler can leave a camera's node in.
use vision_box_dual_cam.Base.{ℕ, ◌≡◌, String, some, ◌⊎◌, arith}
use vision_box_dual_cam.Base.Camera.{Camera, at}
use vision_box_dual_cam.Node.{
  GiFlow, gi_start, gi_wait_trigger, gi_excute_auto_gi, gi_get_test_result,
}
use vision_box_dual_cam.Io.Sysfs.{Os}
use vision_box_dual_cam.Algo.Assign.{Commands}
use vision_box_dual_cam.Flow.State.{
  Box, set_flow, dout_on, light_on, clear_result, set_wake, publish,
}
use vision_box_dual_cam.Flow.{
  handler, flow_case, flow_start, flow_wait_trigger, flow_excute, flow_get_test_result,
  take_trigger, flow_status, wake_ips, report_verdict, take_done, show, drain, drain_rounds,
}

abbrev pub flow : Camera → Box → GiFlow
flow c b = (at c b.nodes).gi_flow

-- The next state of the inspection cycle.
abbrev pub next : GiFlow → GiFlow
next gi_start = gi_wait_trigger
next gi_wait_trigger = gi_excute_auto_gi
next gi_excute_auto_gi = gi_get_test_result
next gi_get_test_result = gi_start

module _ {Json : Type 0} (os : Os) (cmds : Commands Json) where
  start_moves :
      (c : Camera) (stack : String → ℕ) (b : Box)
      → flow c b ≡ gi_start
      → (flow c (flow_start os cmds c stack b) ≡ gi_start)
        ⊎ (flow c (flow_start os cmds c stack b) ≡ gi_wait_trigger)
  unfolding flow_start drain drain_rounds set_flow dout_on light_on clear_result set_wake
  start_moves c stack b h = ground arith

  wait_moves :
      (c : Camera) (stack : String → ℕ) (b : Box)
      → flow c b ≡ gi_wait_trigger
      → (flow c (flow_wait_trigger os cmds c stack b) ≡ gi_wait_trigger)
        ⊎ (flow c (flow_wait_trigger os cmds c stack b) ≡ gi_excute_auto_gi)
  unfolding flow_wait_trigger take_trigger set_flow dout_on light_on
  wait_moves c stack b h = ground arith

  excute_moves :
      (c : Camera) (b b' : Box)
      → flow c b ≡ gi_excute_auto_gi
      → flow_excute os cmds c b ≡ some b'
      → (flow c b' ≡ gi_excute_auto_gi) ⊎ (flow c b' ≡ gi_get_test_result)
  unfolding flow_excute wake_ips flow_status set_flow set_wake
  excute_moves c b b' h g = ground arith

  result_moves :
      (c : Camera) (stack : String → ℕ) (b : Box)
      → flow c b ≡ gi_get_test_result
      → (flow c (flow_get_test_result os cmds c stack b) ≡ gi_get_test_result)
        ⊎ (flow c (flow_get_test_result os cmds c stack b) ≡ gi_start)
  unfolding flow_get_test_result take_done report_verdict set_flow dout_on light_on publish
  result_moves c stack b h = ground arith

  -- A call of either handler leaves the node in the state where it was, or moves it to the next state of
  -- the cycle start, wait for a trigger, run the inspection, get the result: no state is skipped, and
  -- none is left in another direction. A call that does not end in a null pointer is assumed.
  pub handler-flow :
      (c : Camera) (stack : String → ℕ) (b b' : Box)
      → handler os cmds c stack b ≡ some b'
      → (flow c b' ≡ flow c b) ⊎ (flow c b' ≡ next (flow c b))
  unfolding handler flow_case show
  handler-flow c stack b b' h =
      ground (
        arith,
        start_moves c stack b,
        wait_moves c stack b,
        excute_moves c b,
        result_moves c stack b,
      )
