-- ===== src/Command.antt =====
-- The IO commands of the web backend: the structures of common.h and common.c through which a parser hands
-- a command's arguments to the IO thread. The table of the commands is in Command/Table.
pub mod Table
pub mod Json
pub mod Parse
pub mod Assign
pub mod Keeps
pub mod Bounds
pub mod Samples
mod Tests
unfoldable pub use Table.*
use vision_box_dual_cam.Base.{
  ℕ, zero, suc, ◌≡◌, refl, String, List, [], ◌∷◌, Option, none, some, get_elem?,
}
use vision_box_dual_cam.Base.Int.{ℤ, pos}
use vision_box_dual_cam.Base.Camera.{Dual}
use vision_box_dual_cam.Node.{ProcessNode, idle_node}
use vision_box_dual_cam.Io.Dout.{DoutSetProcess}
use vision_box_dual_cam.Io.Light.{LightSetPwm}
use vision_box_dual_cam.Io.Led.{LedSetProcess}

-- `IOS_TRIGGER_SET_PROCESS`.
pub record TriggerSetProcess : Type 0 where
  pub in_pin : ℕ
  pub in_mode : String
  pub out_pin : ℕ
  pub out_delay : ℕ

-- `IOS_DI_SET_PROCESS`.
pub record DiSetProcess : Type 0 where
  pub in_pin : ℕ
  pub in_mode : String
  pub in_control_mode : ℕ
  pub in_delay : ℕ
  pub out_pin : ℕ
  pub out_mode : String
  pub out_control_mode : ℕ
  pub out_delay : ℕ
  pub onoff_setting : ℕ

-- `IOS_LED_SET_MODE`.
pub record LedSetMode : Type 0 where
  pub led : ℕ
  pub led_mode : String
  pub indication : String
  pub color : String

-- `IOS_DIN_SET_MODE`.
pub record DinSetMode : Type 0 where
  pub din_pin : ℕ
  pub din_polarity : String
  pub select_mode : String

-- `IOS_DOUT_SET_MODE`.
pub record DoutSetMode : Type 0 where
  pub out_pin : ℕ
  pub polarity : String
  pub select_mode : String
  pub camera_id : ℕ

-- `IOS_MODBUS_SET_PARAMS`, but for the fields that nothing reads.
pub record ModbusSetParams : Type 0 where
  pub gi_testing_register : ℕ
  pub gi_test_status_register : ℕ
  pub gi_testing_result_register : ℕ
  pub rtu_baudrate : ℕ

-- `IOS_RTC_SET_MODE`. The fields of `struct tm` are `int`; `tm_zone`, a pointer into the message, is left out.
pub record RtcSetMode : Type 0 where
  pub use_ntp : ℕ
  pub tm_year : ℤ
  pub tm_mon : ℤ
  pub tm_mday : ℤ
  pub tm_hour : ℤ
  pub tm_min : ℤ
  pub tm_sec : ℤ
  pub timezone : String

-- The structures of common.c, one of each for all commands, the nodes, and what the parsers write beside.
pub record Requests : Type 0 where
  pub trigger : TriggerSetProcess  -- ios_trigger
  pub di : DiSetProcess  -- ios_di
  pub setpwm : LightSetPwm  -- ios_setpwm
  pub light_switch : String  -- ios_setpwm.LightSwitch
  pub setled : LedSetProcess  -- ios_setled, and its other fields
  pub led_out_mode : String
  pub led_blink_delay : ℕ
  pub led_off_delay : ℕ
  pub set_led_mode : LedSetMode  -- ios_setLedMode
  pub set_din_mode : DinSetMode  -- ios_setDinMode
  pub dout_mode : DoutSetMode  -- ios_doutMode
  pub dout : DoutSetProcess  -- ios_dout
  pub dout_select_mode : String  -- ios_dout.SelectMode
  pub modbus : ModbusSetParams  -- ios_modbusSetParams
  pub rtc : RtcSetMode  -- ios_rtc
  pub sfc_msg : String  -- ios_sfc.msg
  pub streaming : ℕ  -- main_process
  pub camera : ℕ
  pub trig_din_mode : ℕ
  pub trig_din_mode_dual : ℕ
  pub nodes : Dual ProcessNode
  pub cmd_info : String  -- ios_CmdInfo

-- The structures are global, so they start with zeros.
abbrev pub no_requests : Requests
no_requests = record {
  trigger = record { in_pin = 0; in_mode = ""; out_pin = 0; out_delay = 0 };
  di = record {
    in_pin = 0;
    in_mode = "";
    in_control_mode = 0;
    in_delay = 0;
    out_pin = 0;
    out_mode = "";
    out_control_mode = 0;
    out_delay = 0;
    onoff_setting = 0;
  };
  setpwm = record { in_light = 0; value = 0 };
  light_switch = "";
  setled = record { out_pin = 0; out_status = "" };
  led_out_mode = "";
  led_blink_delay = 0;
  led_off_delay = 0;
  set_led_mode = record { led = 0; led_mode = ""; indication = ""; color = "" };
  set_din_mode = record { din_pin = 0; din_polarity = ""; select_mode = "" };
  dout_mode = record { out_pin = 0; polarity = ""; select_mode = ""; camera_id = 0 };
  dout = record { out_pin = 0; out_mode = ""; onoff_setting = 0; one_shot_period = 0 };
  dout_select_mode = "";
  modbus = record {
    gi_testing_register = 0;
    gi_test_status_register = 0;
    gi_testing_result_register = 0;
    rtu_baudrate = 0;
  };
  rtc = record {
    use_ntp = 0;
    tm_year = pos 0;
    tm_mon = pos 0;
    tm_mday = pos 0;
    tm_hour = pos 0;
    tm_min = pos 0;
    tm_sec = pos 0;
    timezone = "";
  };
  sfc_msg = "";
  streaming = 0;
  camera = 0;
  trig_din_mode = 0;
  trig_din_mode_dual = 0;
  nodes = record { first = idle_node; second = idle_node };
  cmd_info = "";
}
