-- ===== src/Command/Parse/Others.antt =====
-- The parsers of the other commands, and which parser a command has.
use vision_box_dual_cam.Base.{
  ℕ, zero, suc, ◌+◌, ◌-◌, leb, String, streq, List, [], ◌∷◌, Option, some, none, if◌then◌else◌,
}
use vision_box_dual_cam.Base.Int.{ℤ, pos, negsuc}
use vision_box_dual_cam.Io.Report.{report_test_result}
use vision_box_dual_cam.Io.Activate.{auto_test_set_mode}
use vision_box_dual_cam.Command.{Requests, IoCmd}
use vision_box_dual_cam.Command.Json.{JsonC, Arg, int_at, string_at, text_at, body, with_args}
use vision_box_dual_cam.Command.Parse.Inputs.{
  u8, u32, trigger_set_process_args, trigger_get_process_args, trigger_set_mode_args,
  din_set_process_args, din_get_process_args, din_set_mode_args,
}
use vision_box_dual_cam.Command.Parse.Outputs.{
  light_set_pwm_args, light_get_pwm_args, light_set_brightness_args, led_set_process_args,
  led_get_process_args, led_set_mode_args, dout_set_mode_args, dout_manual_control_args,
  first_chars,
}

-- An `int` less 1900.
unfoldable pub less_1900 : ℤ → ℤ
less_1900 (pos n) = if leb 1900 n then pos (n - 1900) else negsuc (1899 - n)
less_1900 (negsuc n) = negsuc (n + 1900)

-- A `bool` from an `int`.
unfoldable pub truth : ℤ → ℕ
truth (pos zero) = 0
truth (pos (suc n)) = 1
truth (negsuc n) = 1

-- "streaming" is a text, and only two are understood.
unfoldable pub set_streaming : String → Requests → Requests
set_streaming s r =
    if streq s "ON"
    then record r { streaming = 1 }
    else if streq s "OFF"
    then record r { streaming = 0 }
    else r

module _ {J : Type 0} where
  unfoldable pub camera_streaming_control_args : List (Arg J)
  unfolding u8 set_streaming
  camera_streaming_control_args =
      int_at "camera" (λ n r. record r { camera = u8 n }) ∷ text_at "streaming" set_streaming ∷ []

  unfoldable pub modbus_set_params_args : List (Arg J)
  unfolding u8 u32
  modbus_set_params_args =
      int_at "Baudrate" (λ n r. record r { modbus = record r.modbus { rtu_baudrate = u32 n } })
      ∷ int_at "GITriggerRegister"
          (λ n r. record r { modbus = record r.modbus { gi_testing_register = u8 n } })
      ∷ int_at "GIStatusRegister"
          (λ n r. record r { modbus = record r.modbus { gi_test_status_register = u8 n } })
      ∷ int_at "GIResultRegister"
          (λ n r. record r { modbus = record r.modbus { gi_testing_result_register = u8 n } })
      ∷ []

  -- The name of the time zone is cut to the 64 bytes of its array.
  unfoldable pub io_rtc_set_mode_args : List (Arg J)
  unfolding truth less_1900 first_chars
  io_rtc_set_mode_args =
      int_at "use_ntp" (λ n r. record r { rtc = record r.rtc { use_ntp = truth n } })
      ∷ int_at "year" (λ n r. record r { rtc = record r.rtc { tm_year = less_1900 n } })
      ∷ int_at "month" (λ n r. record r { rtc = record r.rtc { tm_mon = n } })
      ∷ int_at "date" (λ n r. record r { rtc = record r.rtc { tm_mday = n } })
      ∷ int_at "hour" (λ n r. record r { rtc = record r.rtc { tm_hour = n } })
      ∷ int_at "minute" (λ n r. record r { rtc = record r.rtc { tm_min = n } })
      ∷ int_at "second" (λ n r. record r { rtc = record r.rtc { tm_sec = n } })
      ∷ text_at "timezone" (λ s r. record r { rtc = record r.rtc { timezone = first_chars 63 s } })
      ∷ []

  unfoldable pub io_shop_floor_control_args : List (Arg J)
  io_shop_floor_control_args = string_at "msg" 1024 (λ s r. record r { sfc_msg = s }) ∷ []

module _ {J : Type 0} (lib : JsonC J) where
  unfoldable pub int_of : String → J → Option ℕ
  unfolding u8
  int_of key args = elim (lib.object_get key args) [
    | some v ↦ some (u8 (lib.get_int v))
    | none ↦ none
  ]

  unfoldable pub string_of : String → J → Option String
  string_of key args = elim (lib.object_get key args) [
    | some v ↦ some (lib.get_string v)
    | none ↦ none
  ]

  -- The body of `IO_MqttParse_REPORT_TEST_RESULT`.
  unfoldable pub report_step : J → Requests → Option Requests
  unfolding int_of string_of
  report_step args r =
      elim (report_test_result
        (some (record { result = string_of "Result" args; camera_id = int_of "CameraId" args }))
        r.nodes) [ some d ↦ some (record r { nodes = d }) | none ↦ none ]

  -- The body of `IO_MqttParse_AUTO_TEST_SET_MODE`.
  unfoldable pub auto_test_step : J → Requests → Option Requests
  unfolding int_of
  auto_test_step args r =
      elim (auto_test_set_mode
        (some (record {
          onoff_setting = int_of "onoffSetting" args;
          camera_id = int_of "CameraId" args;
        }))
        r.nodes) [ some d ↦ some (record r { nodes = d }) | none ↦ none ]

  -- What the parser of the command takes out of the arguments, in its order.
  unfoldable pub args_of : IoCmd → List (Arg J)
  unfolding trigger_set_process_args trigger_get_process_args trigger_set_mode_args
      din_set_process_args din_get_process_args din_set_mode_args light_set_pwm_args
      light_get_pwm_args light_set_brightness_args led_set_process_args led_get_process_args
      led_set_mode_args dout_set_mode_args dout_manual_control_args camera_streaming_control_args
      modbus_set_params_args io_rtc_set_mode_args io_shop_floor_control_args
  args_of IoCmd.trigger_set_process = trigger_set_process_args
  args_of IoCmd.trigger_get_process = trigger_get_process_args
  args_of IoCmd.din_set_process = din_set_process_args
  args_of IoCmd.din_get_process = din_get_process_args
  args_of IoCmd.ios_get_status = []
  args_of IoCmd.light_set_pwm = light_set_pwm_args
  args_of IoCmd.light_get_pwm = light_get_pwm_args
  args_of IoCmd.led_set_process = led_set_process_args
  args_of IoCmd.led_get_process = led_get_process_args
  args_of IoCmd.led_set_mode = led_set_mode_args
  args_of IoCmd.din_set_mode = din_set_mode_args
  args_of IoCmd.dout_set_mode = dout_set_mode_args
  args_of IoCmd.dout_manual_control = dout_manual_control_args
  args_of IoCmd.dio_get_status = []
  args_of IoCmd.light_set_brightness = light_set_brightness_args
  args_of IoCmd.light_get_brightness = []
  args_of IoCmd.camera_streaming_control = camera_streaming_control_args
  args_of IoCmd.modbus_set_params = modbus_set_params_args
  args_of IoCmd.modbus_get_params = []
  args_of IoCmd.trigger_set_mode = trigger_set_mode_args
  args_of IoCmd.report_test_result = body report_step ∷ []
  args_of IoCmd.auto_test_set_mode = body auto_test_step ∷ []
  args_of IoCmd.io_rtc_set_mode = io_rtc_set_mode_args
  args_of IoCmd.io_sys_get_params = []
  args_of IoCmd.io_shop_floor_control = io_shop_floor_control_args

  -- `MqttParsesFunc` of the command's row.
  unfoldable pub parse : IoCmd → J → Requests → Option Requests
  unfolding with_args args_of
  parse c root r = with_args lib (args_of c) root r
