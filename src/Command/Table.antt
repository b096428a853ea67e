-- ===== src/Command/Table.antt =====
-- The commands of the IO process, their numbers and names: iosCtl/IOS_MethodStructureDef.h, and the rows of
-- gIO_AlgoParamReg of iosCtl/IOS_CompFunction.c.
use vision_box_dual_cam.Base.{
  ℕ, zero, suc, ◌≡◌, refl, String, List, [], ◌∷◌, Option, none, some, get_elem?,
}

-- `IOS_CMD`, but for `NO_IO_CMD`, 0, and the end of the enum.
pub data IoCmd : Type 0 where
  trigger_set_process trigger_get_process din_set_process din_get_process ios_get_status : IoCmd
  light_set_pwm light_get_pwm led_set_process led_get_process led_set_mode din_set_mode : IoCmd
  dout_set_mode dout_manual_control dio_get_status light_set_brightness : IoCmd
  light_get_brightness camera_streaming_control modbus_set_params modbus_get_params : IoCmd
  trigger_set_mode report_test_result auto_test_set_mode io_rtc_set_mode : IoCmd
  io_sys_get_params io_shop_floor_control : IoCmd

-- The rows of `gIO_AlgoParamReg` but the last.
abbrev pub rows : List IoCmd
rows =
    trigger_set_process ∷ trigger_get_process ∷ din_set_process ∷ din_get_process ∷ ios_get_status
    ∷ light_set_pwm ∷ light_get_pwm ∷ led_set_process ∷ led_get_process ∷ led_set_mode
    ∷ din_set_mode ∷ dout_set_mode ∷ dout_manual_control ∷ dio_get_status ∷ light_set_brightness
    ∷ light_get_brightness ∷ camera_streaming_control ∷ modbus_set_params ∷ modbus_get_params
    ∷ trigger_set_mode ∷ report_test_result ∷ auto_test_set_mode ∷ io_rtc_set_mode
    ∷ io_sys_get_params ∷ io_shop_floor_control ∷ []

-- The number of an enumerator.
unfoldable pub number : IoCmd → ℕ
number trigger_set_process = 1
number trigger_get_process = 2
number din_set_process = 3
number din_get_process = 4
number ios_get_status = 5
number light_set_pwm = 6
number light_get_pwm = 7
number led_set_process = 8
number led_get_process = 9
number led_set_mode = 10
number din_set_mode = 11
number dout_set_mode = 12
number dout_manual_control = 13
number dio_get_status = 14
number light_set_brightness = 15
number light_get_brightness = 16
number camera_streaming_control = 17
number modbus_set_params = 18
number modbus_get_params = 19
number trigger_set_mode = 20
number report_test_result = 21
number auto_test_set_mode = 22
number io_rtc_set_mode = 23
number io_sys_get_params = 24
number io_shop_floor_control = 25

-- The command with this number, if there is one.
unfoldable pub of_number : ℕ → Option IoCmd
of_number zero = none
of_number (suc i) = get_elem? rows i

pub of_number-number : (c : IoCmd) → of_number (number c) ≡ some c
unfolding of_number number
of_number-number trigger_set_process = refl
of_number-number trigger_get_process = refl
of_number-number din_set_process = refl
of_number-number din_get_process = refl
of_number-number ios_get_status = refl
of_number-number light_set_pwm = refl
of_number-number light_get_pwm = refl
of_number-number led_set_process = refl
of_number-number led_get_process = refl
of_number-number led_set_mode = refl
of_number-number din_set_mode = refl
of_number-number dout_set_mode = refl
of_number-number dout_manual_control = refl
of_number-number dio_get_status = refl
of_number-number light_set_brightness = refl
of_number-number light_get_brightness = refl
of_number-number camera_streaming_control = refl
of_number-number modbus_set_params = refl
of_number-number modbus_get_params = refl
of_number-number trigger_set_mode = refl
of_number-number report_test_result = refl
of_number-number auto_test_set_mode = refl
of_number-number io_rtc_set_mode = refl
of_number-number io_sys_get_params = refl
of_number-number io_shop_floor_control = refl

-- `ios_cmdStr`, at the number of the command.
unfoldable pub cmd_str : IoCmd → String
cmd_str trigger_set_process = "TRIGGER_SET_PROCESS"
cmd_str trigger_get_process = "TRIGGER_GET_PROCESS"
cmd_str din_set_process = "DIN_SET_PROCESS"
cmd_str din_get_process = "DIN_GET_PROCESS"
cmd_str ios_get_status = "IOS_GET_STATUS"
cmd_str light_set_pwm = "LIGHT_SET_PWM"
cmd_str light_get_pwm = "LIGHT_GET_PWM"
cmd_str led_set_process = "LED_SET_PROCESS"
cmd_str led_get_process = "LED_GET_PROCESS"
cmd_str led_set_mode = "LED_SET_MODE"
cmd_str din_set_mode = "DIN_SET_MODE"
cmd_str dout_set_mode = "DOUT_SET_MODE"
cmd_str dout_manual_control = "DOUT_MANUAL_CONTROL"
cmd_str dio_get_status = "DIO_GET_STATUS"
cmd_str light_set_brightness = "LIGHT_SET_BRIGHTNESS"
cmd_str light_get_brightness = "LIGHT_GET_BRIGHTNESS"
cmd_str camera_streaming_control = "CAMERA_STREAMING_CONTROL"
cmd_str modbus_set_params = "MODBUS_SET_PARAMS"
cmd_str modbus_get_params = "MODBUS_GET_PARAMS"
cmd_str trigger_set_mode = "TRIGGER_SET_MODE"
cmd_str report_test_result = "REPORT_TEST_RESULT"
cmd_str auto_test_set_mode = "AUTO_TEST_SET_MODE"
cmd_str io_rtc_set_mode = "IO_RTC_SET_MODE"
cmd_str io_sys_get_params = "IO_SYS_GET_PARAMS"
cmd_str io_shop_floor_control = "IO_SHOP_FLOOR_CONTROL"
