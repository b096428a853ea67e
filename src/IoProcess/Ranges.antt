-- ===== src/IoProcess/Ranges.antt =====
-- All branches of `ios_process`.
mod Modes
mod Lights
mod Servers
use vision_box_dual_cam.Command.Bounds.Parts.{part_0, part_1, part_8, part_9}
use vision_box_dual_cam.Base.{
  ◌^◌, ◌<◌, ◌%◌, ◌/◌, ◌≡◌, ◌==◌, leb, ltb, ◌&&◌, String, codes, length, streq, Option, none, some,
  subst, if◌then◌else◌, arith,
}
use vision_box_dual_cam.Base.Int.{ℤ, pos, negsuc}
use vision_box_dual_cam.Base.Camera.{Camera, camera_1, camera_2, at, put_at}
use vision_box_dual_cam.Node.{glue_inspection}
use vision_box_dual_cam.Queue.Json.{JsonInfo}
use vision_box_dual_cam.Io.Sysfs.{Sysfs}
use vision_box_dual_cam.Io.Led.{user_def1_led, user_def2_led}
use vision_box_dual_cam.Io.Light.{
  LightSetPwm, light_source_1, light_source_2, light_get_pwm, ailed_step_level,
}
use vision_box_dual_cam.Command.{Requests, IoCmd, LedSetMode, of_number}
use vision_box_dual_cam.Command.Bounds.{Fits, InRange, ModbusInRange}
use vision_box_dual_cam.Command.Bounds.Nodes.{BothInRange}
use vision_box_dual_cam.Command.Keeps.{ltb_lem}
use vision_box_dual_cam.IoProcess.Station.{
  Env, Modbus, Plant, with_requests, modbus_set_parameters, sfc_send_msg, mqtt_publisher_dual,
}
use vision_box_dual_cam.IoProcess.Mode.{
  with_status, with_out_pin, no_delays, indicate, assign_led, set_led, enter_mode,
  led_set_mode_step, din_set_process_step, din_set_mode_step, assign_dout,
}
use vision_box_dual_cam.IoProcess.Handle.{
  answer, light_set_pwm_step, light_get_pwm_step, light_set_brightness_step, led_set_mode_handle,
  dout_set_mode_step, dio_get_status_step, trigger_set_mode_step, auto_test_set_mode_step,
  sys_get_params_step, handle, handle_info,
}
use vision_box_dual_cam.Command.{DiSetProcess}
use vision_box_dual_cam.Io.Status.{get_status, Lamps, led_status_handler}
use vision_box_dual_cam.Io.Pwm.{read_duty_cycle}
use vision_box_dual_cam.IoProcess.Station.{lamps, with_lamps, camera_of}
use vision_box_dual_cam.IoProcess.Handle.{ack}
use vision_box_dual_cam.IoProcess.Answer.{sfc_params_json_create}
use vision_box_dual_cam.Base.{◌||◌, Bool-cases, inl, inr}
use vision_box_dual_cam.Base.Int.{failure}
use vision_box_dual_cam.IoProcess.Bounds.{
  with_brightness-InRange, with_nodes, status-InRange, out_pin-InRange, out_mode-InRange,
  delays-InRange, indicate-InRange, assign_led-InRange, assign_dout-InRange,
}
use vision_box_dual_cam.IoProcess.Ranges.Modes.{
  led_set_mode_handle-InRange, din_set_mode-InRange, dout_set_mode-InRange,
}
use vision_box_dual_cam.IoProcess.Ranges.Lights.{
  light_set_pwm-InRange, light_get_pwm-InRange, light_set_brightness-InRange, dio-InRange,
  trigger_set_mode-InRange, auto_test-InRange,
}
use vision_box_dual_cam.IoProcess.Ranges.Servers.{modbus_set-InRange, sfc-InRange}
use vision_box_dual_cam.IoProcess.Bounds.{PlantInRange, Leaves, left}

module _ {Chip : Type 0} (env : Env Chip) where
  handle-Leaves :
      (c : IoCmd) (p : Plant Chip)
      → env.stack_value < 2 ^ 16
      → PlantInRange p
      → Leaves (handle env c p)
  unfolding handle set_led answer sys_get_params_step mqtt_publisher_dual
  handle-Leaves IoCmd.trigger_set_process p g h = h
  handle-Leaves IoCmd.trigger_get_process p g h = h
  handle-Leaves IoCmd.din_set_process p g h = h
  handle-Leaves IoCmd.din_get_process p g h = h
  handle-Leaves IoCmd.ios_get_status p g h = h
  handle-Leaves IoCmd.light_set_pwm p g h = light_set_pwm-InRange env p h
  handle-Leaves IoCmd.light_get_pwm p g h = light_get_pwm-InRange env p g h
  handle-Leaves IoCmd.light_get_brightness p g h = light_get_pwm-InRange env p g h
  handle-Leaves IoCmd.led_set_process p g h = h
  handle-Leaves IoCmd.led_get_process p g h = h
  handle-Leaves IoCmd.led_set_mode p g h = led_set_mode_handle-InRange env p h
  handle-Leaves IoCmd.din_set_mode p g h = din_set_mode-InRange env p h
  handle-Leaves IoCmd.dout_set_mode p g h = dout_set_mode-InRange env p h
  handle-Leaves IoCmd.dio_get_status p g h = dio-InRange env p h
  handle-Leaves IoCmd.dout_manual_control p g h = h
  handle-Leaves IoCmd.light_set_brightness p g h = light_set_brightness-InRange env p h
  handle-Leaves IoCmd.modbus_set_params p g h = modbus_set-InRange env p h
  handle-Leaves IoCmd.modbus_get_params p g h = ((part_8 h.0 h.1), h.1)
  handle-Leaves IoCmd.trigger_set_mode p g h = trigger_set_mode-InRange env p h
  handle-Leaves IoCmd.report_test_result p g h = h
  handle-Leaves IoCmd.auto_test_set_mode p g h = auto_test-InRange env p h
  handle-Leaves IoCmd.io_rtc_set_mode p g h = h
  handle-Leaves IoCmd.io_sys_get_params p g h = h
  handle-Leaves IoCmd.io_shop_floor_control p g h = sfc-InRange env p h
  handle-Leaves IoCmd.camera_streaming_control p g h = h

  pub handle_info-InRange :
      (i : JsonInfo) (p p' : Plant Chip)
      → env.stack_value < 2 ^ 16
      → PlantInRange p
      → handle_info env i p ≡ some p'
      → PlantInRange p'
  unfolding handle_info sys_get_params_step answer mqtt_publisher_dual
  handle_info-InRange i p p' g h e =
      left (handle_info env i p) p' e (by_number (of_number i.algo_id))
    where
      by_number :
          (o : Option IoCmd)
          → Leaves (elim o as (λ _. Option (Plant Chip)) [
            | some c ↦ handle env c p
            | none ↦ some (sys_get_params_step env p)
          ])
      by_number none = h
      by_number (some c) = handle-Leaves c p g h
