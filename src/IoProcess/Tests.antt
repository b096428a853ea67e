-- ===== src/IoProcess/Tests.antt =====
-- Runs of the theorems on the IO process.
use vision_box_dual_cam.Base.{
  ℕ, ◌≡◌, ◌==◌, refl, arith, none, some, Option, String, streq, [], ◌∷◌, ◌++◌, true, false,
  if◌then◌else◌,
}
use vision_box_dual_cam.Base.Int.{pos}
use vision_box_dual_cam.Node.{gi_start}
use vision_box_dual_cam.Samples.{sample_os, sample_dout}
use vision_box_dual_cam.Command.{Requests, IoCmd, no_requests}
use vision_box_dual_cam.Command.Samples.{Doc, dout_command}
use vision_box_dual_cam.Receive.{Inbox, Message}
use vision_box_dual_cam.Receive.Io.{io_info, with_io}
use vision_box_dual_cam.Receive.Samples.{sample_shared}
use vision_box_dual_cam.IoProcess.Answer.{Fields, System, text, object, sys_get_params_json_create}
use vision_box_dual_cam.IoProcess.Station.{
  Env, Plant, with_requests, camera_of, modbus_set_parameters,
}
use vision_box_dual_cam.IoProcess.Handle.{ack, handle}
use vision_box_dual_cam.IoProcess.Loop.{Site, drain_io, serve_all, inbox}
use vision_box_dual_cam.IoProcess.Drain.{drained, drain_io-serve_all}
use vision_box_dual_cam.IoProcess.Effects.{
  led_set_mode-kept, auto_test_set_mode-flow, modbus_get-modbus_set, look, args_of_answer,
  sys_get_params-stale,
}

-- One network interface has an address.
abbrev sample_sys : System
sample_sys = record {
  version_file = some "1.0";
  vsb_version = "2.0";
  ios_version = "3.0";
  eth_addr = λ s. if streq s "eth0" then some "10.0.0.2" else none;
}

abbrev sample_env : Env ℕ
sample_env = record {
  os = sample_os;
  bus = record { read_byte_data = λ r c. pos 0; write_byte_data = λ r v c. (pos 0, c) };
  stack_read = λ i. pos 0;
  stack_ret = pos 0;
  stack_value = 7;
  stack_ch = λ i. 0;
  stack_period = 9;
  stack_buf = "";
  iwconfig = none;
  connects = λ m. true;
  max_read_registers = 125;
  serial_read = λ s. some "OK";
  settimeofday = λ r. true;
  sys = sample_sys;
}

abbrev sample_plant : Requests → Plant ℕ
sample_plant r = record {
  requests = r;
  ios_cameraid = 1;
  dout = sample_dout;
  led = record { chip = 0; val0 = 0; val1 = 0; blink_bit = 0 };
  update_led_status_flg = 0;
  trig_trigger1 = 0;
  trig_trigger2 = 0;
  trig_pin = λ i. 0;
  trig_edge = λ i. "rising";
  modbus = record { params = no_requests.modbus; modbus_status = 0 };
  published = [];
  ran = [];
}

abbrev sample_site : Site ℕ
sample_site = record { shared = sample_shared; plant = sample_plant no_requests }

-- What a message for an output leaves.
abbrev switched : ℕ → Requests
switched pin = record no_requests {
  dout = record no_requests.dout { out_pin = pin; out_mode = "High" };
  cmd_info = "{}";
}

-- Two commands in the queue.
abbrev queued_site : Site ℕ
queued_site = record sample_site {
  shared = record sample_shared {
    json = record sample_shared.json {
      io_json = io_info IoCmd.dout_manual_control ∷ io_info IoCmd.io_sys_get_params ∷ [];
    };
  };
}

drain_io-serve_all_example :
    drain_io sample_env 3 queued_site
    ≡ drained queued_site.shared
        (serve_all sample_env queued_site.shared.json.io_json queued_site.plant)
drain_io-serve_all_example = drain_io-serve_all sample_env 3 queued_site (omega arith)

-- A request for the first user LED, and one for the first light.
abbrev led_request : Requests
led_request = record no_requests {
  set_led_mode = record { led = 1; led_mode = "AI status"; indication = "ON"; color = "Red" };
}

led_set_mode-kept_example :
    (p' : Plant ℕ) × (handle sample_env IoCmd.led_set_mode (sample_plant led_request) ≡ some p')
    × (p'.led ≡ (sample_plant led_request).led)
    × (p'.dout ≡ sample_dout)
    × (p'.published ≡ [] ++ ((camera_of 1, ack IoCmd.led_set_mode led_request) ∷ []))
unfolding streq
led_set_mode-kept_example = led_set_mode-kept sample_env (sample_plant led_request) refl refl

auto_test_set_mode-flow_example :
    (p' : Plant ℕ) × (handle sample_env IoCmd.auto_test_set_mode (sample_plant no_requests)
      ≡ some p')
    × (p'.requests.nodes.first.gi_flow ≡ (
        if (sample_plant no_requests).ios_cameraid == 0
        then gi_start
        else no_requests.nodes.first.gi_flow))
    × (p'.requests.nodes.second ≡ no_requests.nodes.second)
auto_test_set_mode-flow_example = auto_test_set_mode-flow sample_env (sample_plant no_requests)

abbrev modbus_request : Requests
modbus_request = record no_requests { modbus = record no_requests.modbus { rtu_baudrate = 9600 } }

abbrev served : Plant ℕ
served = record (sample_plant modbus_request) {
  modbus = record { params = modbus_request.modbus; modbus_status = 1 };
}

modbus_set : handle sample_env IoCmd.modbus_set_params (sample_plant modbus_request) ≡ some served
unfolding handle modbus_set_parameters
modbus_set = refl

modbus_get-modbus_set_example :
    (p2 : Plant ℕ) × (handle sample_env IoCmd.modbus_get_params (with_requests no_requests served)
      ≡ some p2)
    × (p2.requests.modbus ≡ modbus_request.modbus)
    × (p2.published ≡ [])
modbus_get-modbus_set_example =
    modbus_get-modbus_set sample_env (sample_plant modbus_request) served no_requests modbus_set

sys_get_params-stale_example :
    (fs : Fields) × (args_of_answer (sys_get_params_json_create sample_sys "" "{}")
      ≡ some (object fs))
    × (look "eth0_ipaddr" fs ≡ some (text "10.0.0.2"))
    × (look "eth1_ipaddr" fs ≡ some (text "10.0.0.2"))
    × (look "eth2_ipaddr" fs ≡ some (text "10.0.0.2"))
    × (look "wlan0_ipaddr" fs ≡ some (text "10.0.0.2"))
unfolding streq
sys_get_params-stale_example =
    sys_get_params-stale sample_sys "" "{}" "10.0.0.2" refl refl refl refl

abbrev light_request : Requests
light_request = record no_requests {
  setpwm = record { in_light = 2; value = 300 };
  light_switch = "ON";
}

abbrev tokener_parse : String → Option Doc
tokener_parse s = some (dout_command (pos 1))

abbrev dout_message : Message
dout_message = record { topic = "PX/VBS/Cmd/Cam1"; payload = "x"; payloadlen = 1; retain = false }

abbrev received : Inbox
received =
    with_io IoCmd.dout_manual_control (switched 1) (record (inbox sample_site) { ios_cameraid = 0 })
