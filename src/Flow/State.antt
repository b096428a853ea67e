-- ===== src/Flow/State.antt =====
-- mainCtl/mainCtl.c: what the main thread, the MQTT side and the two image threads share while the auto
-- mode runs, and the small steps that the flow handlers make on it.
use vision_box_dual_cam.Base.{ℕ, ◌+◌, String, List, [], ◌∷◌, ◌++◌, ◌==◌, if◌then◌else◌}
use vision_box_dual_cam.Base.Int.{ℤ}
use vision_box_dual_cam.Base.Camera.{Camera, camera_1, camera_2, Dual, at, put_at}
use vision_box_dual_cam.Node.{
  GiFlow, gi_start, gi_wait_trigger, gi_excute_auto_gi, gi_get_test_result, ProcessNode,
}
use vision_box_dual_cam.Queue.Inner.{InnerQueues}
use vision_box_dual_cam.Queue.Algo.{AlgoQueues, tasks_dual_get_size}
use vision_box_dual_cam.Algo.Assign.{Algo}
use vision_box_dual_cam.Threads.{Threads}
use vision_box_dual_cam.Io.Sysfs.{Os}
use vision_box_dual_cam.Io.Dout.{Dout, control_dout_handler_dual}
use vision_box_dual_cam.Io.Light.{light_source_1, light_source_2, control_light_handler}

-- `PreState` and `ShowProcessCounter`.
pub record Shown : Type 0 where
  pub pre_state : ℕ
  pub counter : ℕ

pub record Box : Type 0 where
  pub nodes : Dual ProcessNode  -- Process_Node, Process_Node_Dual
  pub inner : InnerQueues
  pub algo : Algo
  pub threads : Threads
  pub dout : Dout
  pub wake_ips_flag : Dual ℕ  -- wakeIPSFlag, wakeIPSFlag_Dual
  pub published : List String  -- by ext_mqtt_publisher_Dual with topic 0, oldest first
  pub shown : Shown

-- The number of an enumerator of `AUTO_GLUE_INSPECTION_FLOW`.
unfoldable pub number : GiFlow → ℕ
number gi_start = 0
number gi_wait_trigger = 1
number gi_excute_auto_gi = 2
number gi_get_test_result = 3

-- `Show_Process_State`, whose target is 1000. What it prints goes to a log.
unfoldable pub show_process_state : ℕ → Shown → Shown
show_process_state current s = record s {
  pre_state = current;
  counter = if s.counter == 1000 then 0 else s.counter + 1;
}

unfoldable pub set_flow : Camera → GiFlow → Box → Box
set_flow c f b = record b { nodes = put_at c (record (at c b.nodes) { gi_flow = f }) b.nodes }

-- `strcpy(TestResult, "")`.
unfoldable pub clear_result : Camera → Box → Box
clear_result c b = record b {
  nodes = put_at c (record (at c b.nodes) { test_result = "" }) b.nodes;
}

unfoldable pub set_wake : Camera → ℕ → Box → Box
set_wake c n b = record b { wake_ips_flag = put_at c n b.wake_ips_flag }

-- The trigger that each handler waits for, and the answer that it publishes.
abbrev pub trigger : Camera → String
trigger camera_1 = "Din_Trigger"
trigger camera_2 = "Din_Trigger_Dual"

abbrev pub autodone_resp : Camera → String
autodone_resp camera_1 = "{\"cmd\":\"CAM1_AUTODONE_RESP\", \"args\":{ \"result\":0 }}"
autodone_resp camera_2 = "{\"cmd\":\"CAM2_AUTODONE_RESP\", \"args\":{ \"result\":0 }}"

abbrev pub light_source : Camera → ℕ
light_source camera_1 = light_source_1
light_source camera_2 = light_source_2

unfoldable pub publish : Camera → Box → Box
publish c b = record b { published = b.published ++ (autodone_resp c ∷ []) }

-- The count of commands that the waiting thread sees is the size of its queue.
unfoldable pub count_tasks : Camera → AlgoQueues → Threads → Threads
count_tasks c q t = record t {
  ip = put_at c (record (at c t.ip) { queued = tasks_dual_get_size c q }) t.ip;
}

module _ (os : Os) where
  -- A call of `ios_Control_Dout_Handler_Dual`: what it returns and the state after it. `stack` is what
  -- the handler's stack holds for the one-shot period.
  unfoldable pub dout_on : Camera → String → ℕ → (stack : ℕ) → Box → ℤ × Box
  dout_on c event enable stack b =
      let (ret, d) = control_dout_handler_dual os b.nodes event enable c stack b.dout in
      (ret, record b { dout = d })

  -- A call of `ios_Control_Light_Handler` with the camera's light.
  unfoldable pub light_on : Camera → ℕ → Box → Box
  light_on c enable b = record b {
    dout = record b.dout {
      sysfs = control_light_handler os b.nodes.first (light_source c) enable b.dout.sysfs;
    };
  }
