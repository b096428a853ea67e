-- ===== src/Command/Bounds/Laws.antt =====
-- All parsers of iosCtl/IOS_CompFunction.c.
use vision_box_dual_cam.Base.{subst, some-injective, ◌≡◌, List, [], ◌∷◌, some}
use vision_box_dual_cam.Base.Camera.{Dual}
use vision_box_dual_cam.Node.{ProcessNode}
use vision_box_dual_cam.Io.Report.{ReportArgs, report_test_result}
use vision_box_dual_cam.Io.Activate.{auto_test_set_mode, set_both, set_for}
use vision_box_dual_cam.Command.{Requests, IoCmd}
use vision_box_dual_cam.Command.Json.{JsonC, Arg, body}
use vision_box_dual_cam.Command.Keeps.{AllKeep, with_args-Keeps, bound}
use vision_box_dual_cam.Command.Parse.{
  parse, args_of, report_step, auto_test_step, int_of, string_of,
}
use vision_box_dual_cam.Command.Bounds.{InRange}
use vision_box_dual_cam.Command.Bounds.Nodes.{
  BothInRange, set_both-InRange, set_for-InRange, report-InRange,
}
use vision_box_dual_cam.Command.Bounds.Inputs.{
  trigger_set_process-InRange, trigger_get_process-InRange, trigger_set_mode-InRange,
  din_set_process-InRange, din_get_process-InRange, din_set_mode-InRange,
}
use vision_box_dual_cam.Command.Bounds.Outputs.{
  light_set_pwm-InRange, light_get_pwm-InRange, light_set_brightness-InRange,
  led_set_process-InRange, led_get_process-InRange, led_set_mode-InRange, dout_set_mode-InRange,
  dout_manual_control-InRange, camera_streaming_control-InRange, modbus_set_params-InRange,
  io_rtc_set_mode-InRange, io_shop_floor_control-InRange,
}

module _ {J : Type 0} (lib : JsonC J) where
  abbrev KeepsAll : List (Arg J) → Type 0
  KeepsAll = AllKeep lib InRange

  with_nodes :
      (r : Requests) (d : Dual ProcessNode)
      → InRange r
      → BothInRange d
      → InRange (record r { nodes = d })
  with_nodes r d h g = (h.0, h.1, h.2, h.3, h.4, h.5, h.6, h.7, h.8, h.9, g.0, g.1)

  report_test_result-InRange : KeepsAll (body (report_step lib) ∷ [])
  unfolding report_step
  report_test_result-InRange = (
    λ args r r' h e.
        let a : ReportArgs = record {
          result = string_of lib "Result" args;
          camera_id = int_of lib "CameraId" args;
        } in
        let (d, e1, e2) =
          bound (report_test_result (some a) r.nodes) (λ d. record r { nodes = d }) r' e in
        subst InRange e2 (with_nodes r d h (report-InRange a r.nodes d (h.10, h.11) e1)),
    tt,
  )

  auto_test_set_mode-InRange : KeepsAll (body (auto_test_step lib) ∷ [])
  unfolding auto_test_step auto_test_set_mode
  auto_test_set_mode-InRange = (
    λ args r r' h e.
        let on = int_of lib "onoffSetting" args in
        let c = int_of lib "CameraId" args in
        subst InRange (some-injective _ r' e) (
          with_nodes r (set_for c on (set_both on r.nodes)) h (
            set_for-InRange c on (set_both on r.nodes) (set_both-InRange on r.nodes (h.10, h.11)))),
    tt,
  )

  args_of-InRange : (c : IoCmd) → KeepsAll (args_of lib c)
  unfolding args_of
  args_of-InRange IoCmd.trigger_set_process = trigger_set_process-InRange lib
  args_of-InRange IoCmd.trigger_get_process = trigger_get_process-InRange lib
  args_of-InRange IoCmd.din_set_process = din_set_process-InRange lib
  args_of-InRange IoCmd.din_get_process = din_get_process-InRange lib
  args_of-InRange IoCmd.ios_get_status = tt
  args_of-InRange IoCmd.light_set_pwm = light_set_pwm-InRange lib
  args_of-InRange IoCmd.light_get_pwm = light_get_pwm-InRange lib
  args_of-InRange IoCmd.led_set_process = led_set_process-InRange lib
  args_of-InRange IoCmd.led_get_process = led_get_process-InRange lib
  args_of-InRange IoCmd.led_set_mode = led_set_mode-InRange lib
  args_of-InRange IoCmd.din_set_mode = din_set_mode-InRange lib
  args_of-InRange IoCmd.dout_set_mode = dout_set_mode-InRange lib
  args_of-InRange IoCmd.dout_manual_control = dout_manual_control-InRange lib
  args_of-InRange IoCmd.dio_get_status = tt
  args_of-InRange IoCmd.light_set_brightness = light_set_brightness-InRange lib
  args_of-InRange IoCmd.light_get_brightness = tt
  args_of-InRange IoCmd.camera_streaming_control = camera_streaming_control-InRange lib
  args_of-InRange IoCmd.modbus_set_params = modbus_set_params-InRange lib
  args_of-InRange IoCmd.modbus_get_params = tt
  args_of-InRange IoCmd.trigger_set_mode = trigger_set_mode-InRange lib
  args_of-InRange IoCmd.report_test_result = report_test_result-InRange
  args_of-InRange IoCmd.auto_test_set_mode = auto_test_set_mode-InRange
  args_of-InRange IoCmd.io_rtc_set_mode = io_rtc_set_mode-InRange lib
  args_of-InRange IoCmd.io_sys_get_params = tt
  args_of-InRange IoCmd.io_shop_floor_control = io_shop_floor_control-InRange lib

  pub parse-InRange :
      (c : IoCmd) (root : J) (r r' : Requests)
      → InRange r
      → parse lib c root r ≡ some r'
      → InRange r'
  unfolding parse
  parse-InRange c root r r' h e =
      with_args-Keeps lib InRange (args_of lib c) (args_of-InRange c)
        (λ s r q h. (
          h.0,
          h.1,
          h.2,
          h.3,
          h.4,
          h.5,
          h.6,
          h.7,
          h.8,
          (h.9.0, h.9.1, h.9.2, h.9.3, h.9.4, h.9.5, h.9.6, q),
          h.10,
          h.11,
        ))
        root r r' h e
