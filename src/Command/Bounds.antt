-- ===== src/Command/Bounds.antt =====
-- The types and array sizes of common.h, as predicates on the structures that the IO commands share.
pub mod Parts
pub mod Inputs
pub mod Outputs
pub mod Nodes
pub mod Laws
use vision_box_dual_cam.Base.{
  subst, some-injective, Bool-cases, inl, inr, ℕ, zero, suc, ◌+◌, ◌-◌, ◌%◌, ◌^◌, ◌<◌, ◌≤◌, ◌≡◌,
  ◌==◌, ◌||◌, refl, Bool, true, false, String, codes, length, ltb, streq, List, [], ◌∷◌, Option,
  some, none, if◌then◌else◌, arith,
}
use vision_box_dual_cam.Base.Int.{ℤ, pos, negsuc, wrap}
use vision_box_dual_cam.Base.Camera.{Dual}
use vision_box_dual_cam.Node.{ProcessNode}
use vision_box_dual_cam.Io.Report.{ReportArgs, report_test_result, copy_result, copy_for}
use vision_box_dual_cam.Io.Activate.{auto_test_set_mode, set_both, set_for, get_int}
use vision_box_dual_cam.Command.Keeps.{AllKeep}
use vision_box_dual_cam.Command.Json.{JsonC, Arg}
use vision_box_dual_cam.Command.{
  Requests, IoCmd, TriggerSetProcess, DiSetProcess, LedSetMode, DinSetMode, DoutSetMode,
  ModbusSetParams, RtcSetMode,
}
use vision_box_dual_cam.Command.Json.{JsonC, Arg, body}
use vision_box_dual_cam.Command.Keeps.{AllKeep, with_args-Keeps, taken, bound, ltb_lem}
use vision_box_dual_cam.Command.Parse.{
  parse, args_of, u8, u16, u32, assign_din, first_chars, less_one, truth, set_streaming,
  report_step, auto_test_step, int_of, string_of, trigger_set_process_args,
  trigger_get_process_args, trigger_set_mode_args, din_set_process_args, din_get_process_args,
  din_set_mode_args, light_set_pwm_args, light_get_pwm_args, light_set_brightness_args,
  led_set_process_args, led_get_process_args, led_set_mode_args, dout_set_mode_args,
  dout_manual_control_args, camera_streaming_control_args, modbus_set_params_args,
  io_rtc_set_mode_args, io_shop_floor_control_args,
}

-- The text and its final NUL fit the array.
abbrev pub Fits : (size : ℕ) → String → Type 0
Fits size s = length (codes s) < size

abbrev pub NodeInRange : ProcessNode → Type 0
NodeInRange n =
    (n.active < 256)
    × Fits 8 n.test_result
    × Fits 16 n.dout1_mode
    × Fits 16 n.dout2_mode
    × Fits 16 n.dout3_mode
    × Fits 16 n.dout4_mode
    × Fits 32 n.dout1_select_mode
    × Fits 32 n.dout2_select_mode
    × Fits 32 n.dout3_select_mode
    × Fits 32 n.dout4_select_mode
    × Fits 16 n.usr_def1_mode
    × Fits 16 n.usr_def2_mode
    × (n.brightness1 < 2 ^ 16)
    × (n.brightness2 < 2 ^ 16)

abbrev pub TriggerInRange : TriggerSetProcess → Type 0
TriggerInRange t = (t.in_pin < 256) × Fits 16 t.in_mode × (t.out_pin < 256) × (t.out_delay < 2 ^ 32)

abbrev pub DiInRange : DiSetProcess → Type 0
DiInRange d =
    (d.in_pin < 256)
    × Fits 16 d.in_mode
    × (d.in_control_mode < 2 ^ 16)
    × (d.in_delay < 2 ^ 32)
    × (d.out_pin < 256)
    × Fits 16 d.out_mode
    × (d.out_control_mode < 2 ^ 16)
    × (d.out_delay < 2 ^ 32)
    × (d.onoff_setting < 256)

abbrev pub LightInRange : Requests → Type 0
LightInRange r = (r.setpwm.in_light < 256) × (r.setpwm.value < 2 ^ 16) × Fits 8 r.light_switch

abbrev pub LedInRange : Requests → Type 0
LedInRange r =
    (r.setled.out_pin < 256)
    × Fits 16 r.setled.out_status
    × Fits 16 r.led_out_mode
    × (r.led_blink_delay < 2 ^ 32)
    × (r.led_off_delay < 2 ^ 32)

abbrev pub LedModeInRange : LedSetMode → Type 0
LedModeInRange l = (l.led < 256) × Fits 16 l.led_mode × Fits 8 l.indication × Fits 8 l.color

abbrev pub DinModeInRange : DinSetMode → Type 0
DinModeInRange i = (i.din_pin < 256) × Fits 8 i.din_polarity × Fits 32 i.select_mode

abbrev pub DoutModeInRange : DoutSetMode → Type 0
DoutModeInRange o =
    (o.out_pin < 256) × Fits 8 o.polarity × Fits 32 o.select_mode × (o.camera_id < 256)

abbrev pub DoutInRange : Requests → Type 0
DoutInRange r =
    (r.dout.out_pin < 256)
    × Fits 16 r.dout.out_mode
    × (r.dout.onoff_setting < 256)
    × (r.dout.one_shot_period < 2 ^ 32)
    × Fits 16 r.dout_select_mode

abbrev pub ModbusInRange : ModbusSetParams → Type 0
ModbusInRange m =
    (m.gi_testing_register < 256)
    × (m.gi_test_status_register < 256)
    × (m.gi_testing_result_register < 256)
    × (m.rtu_baudrate < 2 ^ 32)

abbrev pub OthersInRange : Requests → Type 0
OthersInRange r =
    (r.rtc.use_ntp < 2)
    × Fits 64 r.rtc.timezone
    × Fits 1024 r.sfc_msg
    × (r.streaming < 2)
    × (r.camera < 256)
    × (r.trig_din_mode < 256)
    × (r.trig_din_mode_dual < 256)
    × Fits 512 r.cmd_info

-- Every structure is within its types and arrays.
abbrev pub InRange : Requests → Type 0
InRange r =
    TriggerInRange r.trigger
    × DiInRange r.di
    × LightInRange r
    × LedInRange r
    × LedModeInRange r.set_led_mode
    × DinModeInRange r.set_din_mode
    × DoutModeInRange r.dout_mode
    × DoutInRange r
    × ModbusInRange r.modbus
    × OthersInRange r
    × NodeInRange r.nodes.first
    × NodeInRange r.nodes.second

pub wrap-lt : (m : ℕ) (n : ℤ) → 0 < m → wrap m n < m
unfolding wrap
wrap-lt m (pos n) h = omega arith
wrap-lt m (negsuc n) h = omega arith

pub u8-lt : (n : ℤ) → u8 n < 256
unfolding u8
u8-lt n = wrap-lt 256 n (omega arith)

pub u16-lt : (n : ℤ) → u16 n < 2 ^ 16
unfolding u16
u16-lt n = wrap-lt (2 ^ 16) n (omega arith)

pub u32-lt : (n : ℤ) → u32 n < 2 ^ 32
unfolding u32
u32-lt n = wrap-lt (2 ^ 32) n (omega arith)

pub truth-lt : (n : ℤ) → truth n < 2
unfolding truth
truth-lt (pos zero) = omega arith
truth-lt (pos (suc n)) = omega arith
truth-lt (negsuc n) = omega arith

pub first_chars-lt : (n : ℕ) (s : String) → length (codes (first_chars n s)) < suc n
unfolding first_chars
first_chars-lt zero s = omega arith
first_chars-lt (suc n) String.[] = omega arith
first_chars-lt (suc n) (String.◌∷◌ c s) = omega (arith, first_chars-lt n s)

-- Every one of the arguments keeps the structures in range.
abbrev pub KeepsRange : {J : Type 0} → JsonC J → List (Arg J) → Type 0
KeepsRange lib = AllKeep lib InRange
