-- ===== src/IoProcess/Handle.antt =====
-- mainCtl/mainCtl.c: the branches of `ios_process`, one for each command. `none` is a write past the end of an
-- array.
use vision_box_dual_cam.Base.{ℕ, ◌==◌, String, streq, ◌++◌, Option, none, some, if◌then◌else◌}
use vision_box_dual_cam.Base.Camera.{Camera, Dual, at, put_at}
use vision_box_dual_cam.Node.{ProcessNode, gi_start}
use vision_box_dual_cam.Queue.Json.{JsonInfo}
use vision_box_dual_cam.Io.Dout.{Dout, dout_set_process, control_dout_handler_dual}
use vision_box_dual_cam.Io.Light.{
  light_source_1, light_source_2, light_get_pwm, control_light_handler,
}
use vision_box_dual_cam.Io.Status.{led_status_handler, get_status}
use vision_box_dual_cam.Command.{Requests, IoCmd, DoutSetMode, cmd_str, of_number}
use vision_box_dual_cam.IoProcess.Answer.{
  Value, response_json_create, din_get_process_json_create, get_status_json_create,
  light_get_brightness_json_create, led_get_process_json_create, sys_get_params_json_create,
  sfc_params_json_create,
}
use vision_box_dual_cam.IoProcess.Clock.{set_local_time}
use vision_box_dual_cam.IoProcess.Station.{
  Env, Plant, with_requests, with_sysfs, lamps, with_lamps, camera_of, mqtt_publisher_dual,
  modbus_set_parameters, sfc_send_msg,
}
use vision_box_dual_cam.IoProcess.Mode.{set_led, led_set_mode_step, din_set_mode_step, assign_dout}

-- `ios_respStr`, at the number of the command.
unfoldable pub resp_str : IoCmd → String
resp_str IoCmd.trigger_set_process = "TRIGGER_GET_PROCESS"
resp_str IoCmd.trigger_get_process = "TRIGGER_SET_PROCESS"
resp_str IoCmd.din_set_process = "DIN_GET_PROCESS"
resp_str IoCmd.din_get_process = "DIN_SET_PROCESS"
resp_str IoCmd.ios_get_status = "IOS_SET_STATUS"
resp_str IoCmd.light_set_pwm = "LIGHT_GET_PWM"
resp_str IoCmd.light_get_pwm = "LIGHT_SET_PWM"
resp_str IoCmd.led_set_process = "LED_GET_PROCESS"
resp_str IoCmd.led_get_process = "LED_SET_PROCESS"
resp_str IoCmd.led_set_mode = "LED_GET_MODE"
resp_str IoCmd.din_set_mode = "DIN_GET_MODE"
resp_str IoCmd.dout_set_mode = "DOUT_GET_MODE"
resp_str IoCmd.dout_manual_control = "DOUT_GET_MANUAL_CONTROL"
resp_str IoCmd.dio_get_status = "DIO_SET_STATUS"
resp_str IoCmd.light_set_brightness = "LIGHT_GET_BRIGHTNESS"
resp_str IoCmd.light_get_brightness = "LIGHT_SET_BRIGHTNESS"
resp_str IoCmd.camera_streaming_control = "CAMERA_STREAMING_CONTROL"
resp_str IoCmd.modbus_set_params = "MODBUS_SET_PARAMS"
resp_str IoCmd.modbus_get_params = "MODBUS_GET_PARAMS"
resp_str IoCmd.trigger_set_mode = "TRIGGER_SET_MODE"
resp_str IoCmd.report_test_result = "REPORT_TEST_RESULT"
resp_str IoCmd.auto_test_set_mode = "AUTO_TEST_SET_MODE"
resp_str IoCmd.io_rtc_set_mode = "IO_RTC_SET_MODE"
resp_str IoCmd.io_sys_get_params = "IO_SYS_GET_PARAMS"
resp_str IoCmd.io_shop_floor_control = "IO_SHOP_FLOOR_CONTROL"

-- The two forms of `ios_response_json_create`: the command with the name of its answer, and that name with
-- the text of the arguments.
unfoldable pub echo : IoCmd → Value
unfolding response_json_create resp_str cmd_str
echo c = response_json_create (cmd_str c) (resp_str c)

unfoldable pub ack : IoCmd → Requests → Value
unfolding response_json_create resp_str
ack c r = response_json_create (resp_str c) r.cmd_info

unfoldable pub with_brightness : (brightness1 brightness2 : ℕ) → Requests → Requests
with_brightness b1 b2 r = record r {
  nodes = record r.nodes { first = record r.nodes.first { brightness1 = b1; brightness2 = b2 } };
}

module _ {Chip : Type 0} where
  -- An answer on the topic of `ios_cameraid`.
  unfoldable pub answer : Value → Plant Chip → Plant Chip
  unfolding mqtt_publisher_dual
  answer v p = mqtt_publisher_dual v p.ios_cameraid p

  -- TRIGGER_SET_MODE: the number of a light becomes that of its pin. `ios_triggerSetProcess` only prints.
  unfoldable pub trigger_set_mode_step : Plant Chip → Plant Chip
  trigger_set_mode_step p =
      let r : Requests = p.requests in
      with_requests
        (record r {
          trigger = record r.trigger {
            out_pin = if r.trigger.out_pin == light_source_1 then 5 else 6;
          };
        })
        p

  -- AUTO_TEST_SET_MODE: both tests ask for the first camera.
  unfoldable pub auto_test_set_mode_step : Plant Chip → Plant Chip
  unfolding answer ack
  auto_test_set_mode_step p =
      let r : Requests = p.requests in
      answer (ack IoCmd.auto_test_set_mode r) (
        if p.ios_cameraid == 0
        then with_requests
            (record r {
              nodes = record r.nodes { first = record r.nodes.first { gi_flow = gi_start } };
            })
            p
        else p)

module _ {Chip : Type 0} (env : Env Chip) where
  unfoldable pub light_set_pwm_step : Plant Chip → Plant Chip
  unfolding with_brightness control_light_handler answer echo
  light_set_pwm_step p =
      let v = p.requests.setpwm.value in
      let p1 : Plant Chip = with_requests (with_brightness v v p.requests) p in
      answer (echo IoCmd.light_set_pwm) (
        with_sysfs
          (control_light_handler env.os p1.requests.nodes.first p1.requests.setpwm.in_light 1
            p1.dout.sysfs)
          p1)

  -- Both lights are read, through one request on the stack.
  unfoldable pub light_get_pwm_step : Plant Chip → Plant Chip
  light_get_pwm_step p =
      let q1 =
        (light_get_pwm env.os (env.stack_read 1) env.stack_ret
          (record { in_light = light_source_1; value = env.stack_value }) p.dout.sysfs).1 in
      let q2 =
        (light_get_pwm env.os (env.stack_read 2) env.stack_ret
          (record { in_light = light_source_2; value = q1.value }) p.dout.sysfs).1 in
      answer (light_get_brightness_json_create p.requests.cmd_info q1.value q2.value)
        (with_requests (with_brightness q1.value q2.value p.requests) p)

  -- No answer is published.
  unfoldable pub light_set_brightness_step : Plant Chip → Plant Chip
  light_set_brightness_step p =
      let r : Requests = p.requests in
      let n : ProcessNode = r.nodes.first in
      let r1 : Requests =
        if r.setpwm.in_light == light_source_1
        then with_brightness r.setpwm.value n.brightness2 r
        else if r.setpwm.in_light == light_source_2
        then with_brightness n.brightness1 r.setpwm.value r
        else r in
      with_sysfs
        (control_light_handler env.os r1.nodes.first r.setpwm.in_light
          (if streq r.light_switch "ON" then 1 else 0) p.dout.sysfs)
        (with_requests r1 p)

  -- The handler may stop the process; its flag is the one that the main loop uses.
  unfoldable pub led_set_mode_handle : Plant Chip → Option (Plant Chip)
  led_set_mode_handle p =
      let p1 : Plant Chip = led_set_mode_step env p in
      elim (led_status_handler env.bus env.os env.stack_read env.stack_ret env.stack_value
        env.stack_ch env.iwconfig p1.requests.nodes (lamps p1)) [
          | some l ↦ some (answer (ack IoCmd.led_set_mode p1.requests) (with_lamps l p1))
          | none ↦ none
        ]

  -- The output that was assigned is switched on, and after 50 ms off.
  unfoldable pub dout_set_mode_step : Plant Chip → Plant Chip
  unfolding assign_dout camera_of control_dout_handler_dual mqtt_publisher_dual ack
  dout_set_mode_step p =
      let r : Requests = p.requests in
      let m : DoutSetMode = r.dout_mode in
      let id : Camera = camera_of m.camera_id in
      let nodes : Dual ProcessNode = put_at id (assign_dout m (at id r.nodes)) r.nodes in
      let on : Dout =
        (control_dout_handler_dual env.os nodes m.select_mode 1 id env.stack_period p.dout).1 in
      let off : Dout =
        (control_dout_handler_dual env.os nodes m.select_mode 0 id env.stack_period on).1 in
      mqtt_publisher_dual (ack IoCmd.dout_set_mode r) m.camera_id
        (record (with_requests (record r { nodes = nodes }) p) { dout = off })

  -- `ios_getStatus` and its answer.
  unfoldable pub dio_get_status_step : Plant Chip → Plant Chip
  unfolding get_status get_status_json_create answer
  dio_get_status_step p =
      let (g, sysfs) =
        get_status env.os env.stack_ch p.trig_trigger1 p.trig_trigger2 p.dout.sysfs in
      answer (get_status_json_create p.requests.cmd_info g) (with_sysfs sysfs p)

  unfoldable pub sys_get_params_step : Plant Chip → Plant Chip
  unfolding sys_get_params_json_create answer
  sys_get_params_step p =
      answer (sys_get_params_json_create env.sys env.stack_buf p.requests.cmd_info) p

  -- The chain of tests on `emAlgoId`. A command that it does not name gets the answer on the system.
  unfoldable pub handle : IoCmd → Plant Chip → Option (Plant Chip)
  handle IoCmd.trigger_set_process p = some (answer (echo IoCmd.trigger_set_process) p)
  handle IoCmd.trigger_get_process p = some (answer (echo IoCmd.trigger_get_process) p)
  handle IoCmd.din_set_process p = some (answer (din_get_process_json_create p.requests.cmd_info) p)
  handle IoCmd.din_get_process p = some (answer (echo IoCmd.din_get_process) p)
  handle IoCmd.ios_get_status p = some (answer (echo IoCmd.ios_get_status) p)
  handle IoCmd.light_set_pwm p = some (light_set_pwm_step p)
  handle IoCmd.light_get_pwm p = some (light_get_pwm_step p)
  handle IoCmd.light_get_brightness p = some (light_get_pwm_step p)
  handle IoCmd.led_set_process p =
      some (answer (led_get_process_json_create p.requests) (set_led env p))
  handle IoCmd.led_get_process p = some (answer (echo IoCmd.led_get_process) p)
  handle IoCmd.led_set_mode p = led_set_mode_handle p
  handle IoCmd.din_set_mode p =
      let p1 : Plant Chip = din_set_mode_step env p in
      some (answer (ack IoCmd.din_set_mode p1.requests) p1)
  handle IoCmd.dout_set_mode p = some (dout_set_mode_step p)
  handle IoCmd.dio_get_status p = some (dio_get_status_step p)
  handle IoCmd.dout_manual_control p =
      some (record p { dout = (dout_set_process env.os p.requests.dout p.dout).1 })
  handle IoCmd.light_set_brightness p = some (light_set_brightness_step p)
  handle IoCmd.modbus_set_params p = elim (modbus_set_parameters env p.requests.modbus p.modbus) [
    | some m ↦ some (record p { modbus = m })
    | none ↦ none
  ]
  handle IoCmd.modbus_get_params p =
      some (with_requests (record p.requests { modbus = p.modbus.params }) p)
  handle IoCmd.trigger_set_mode p = some (trigger_set_mode_step p)
  handle IoCmd.report_test_result p = some (record p { update_led_status_flg = 1 })
  handle IoCmd.auto_test_set_mode p = some (auto_test_set_mode_step p)
  handle IoCmd.io_rtc_set_mode p = some (
      answer (echo IoCmd.io_rtc_set_mode)
        (record p { ran = p.ran ++ set_local_time env.settimeofday p.requests.rtc }))
  handle IoCmd.io_sys_get_params p = some (sys_get_params_step p)
  handle IoCmd.io_shop_floor_control p = elim (sfc_send_msg env p.requests.sfc_msg) [
    | some msg ↦ some (
        answer (sfc_params_json_create msg p.requests.cmd_info)
          (with_requests (record p.requests { sfc_msg = msg }) p))
    | none ↦ none
  ]
  handle IoCmd.camera_streaming_control p = some (sys_get_params_step p)

  -- One pass of the inner loop, for the record that it took from the queue.
  unfoldable pub handle_info : JsonInfo → Plant Chip → Option (Plant Chip)
  handle_info info p = elim (of_number info.algo_id) [
    | some c ↦ handle c p
    | none ↦ some (sys_get_params_step p)
  ]
