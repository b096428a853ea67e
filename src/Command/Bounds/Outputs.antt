-- ===== src/Command/Bounds/Outputs.antt =====
-- The parsers of iosCtl/IOS_CompFunction.c for the outputs, the LEDs and the rest, argument by argument.
use vision_box_dual_cam.Command.Bounds.Parts.{
  part_2, part_3, part_4, part_6, part_7, part_8, part_9,
}
use vision_box_dual_cam.Base.{Bool-cases, inl, inr, String, streq, arith}
use vision_box_dual_cam.Command.{Requests}
use vision_box_dual_cam.Command.Json.{JsonC}
use vision_box_dual_cam.Command.Parse.{
  less_one, set_streaming, light_set_pwm_args, light_get_pwm_args, light_set_brightness_args,
  led_set_process_args, led_get_process_args, led_set_mode_args, dout_set_mode_args,
  dout_manual_control_args, camera_streaming_control_args, modbus_set_params_args,
  io_rtc_set_mode_args, io_shop_floor_control_args,
}
use vision_box_dual_cam.Command.Bounds.{InRange, u8-lt, u16-lt, u32-lt, truth-lt, first_chars-lt}
use vision_box_dual_cam.Command.Bounds.{KeepsRange}

pub set_streaming-InRange : (s : String) (r : Requests) → InRange r → InRange (set_streaming s r)
unfolding set_streaming
set_streaming-InRange s r h = elim (Bool-cases (streq s "ON")) [
  | inl e ↦ rw e (part_9 h (h.9.0, h.9.1, h.9.2, (omega arith), h.9.4, h.9.5, h.9.6, h.9.7))
  | inr e ↦ elim (Bool-cases (streq s "OFF")) [
    | inl e2 ↦
        rw (e, e2) (part_9 h (h.9.0, h.9.1, h.9.2, (omega arith), h.9.4, h.9.5, h.9.6, h.9.7))
    | inr e2 ↦ rw (e, e2) h
  ]
]

module _ {J : Type 0} (lib : JsonC J) where
  pub light_set_pwm-InRange : KeepsRange lib light_set_pwm_args
  unfolding light_set_pwm_args
  light_set_pwm-InRange = (
    (λ n r h. (part_2 h (u8-lt n, h.2.1, h.2.2))),
    ((λ n r h. (part_2 h (h.2.0, u16-lt n, h.2.2))), tt),
  )

  pub light_get_pwm-InRange : KeepsRange lib light_get_pwm_args
  unfolding light_get_pwm_args
  light_get_pwm-InRange = ((λ n r h. (part_2 h (u8-lt n, h.2.1, h.2.2))), tt)

  pub light_set_brightness-InRange : KeepsRange lib light_set_brightness_args
  unfolding light_set_brightness_args
  light_set_brightness-InRange = (
    (λ n r h. (part_2 h (u8-lt n, h.2.1, h.2.2))),
    (
      (λ n r h. (part_2 h (h.2.0, u16-lt n, h.2.2))),
      ((λ s r q h. (part_2 h (h.2.0, h.2.1, q))), tt),
    ),
  )

  pub led_set_process-InRange : KeepsRange lib led_set_process_args
  unfolding led_set_process_args
  led_set_process-InRange = (
    (λ n r h. (part_3 h (u8-lt n, h.3.1, h.3.2, h.3.3, h.3.4))),
    (
      (λ s r q h. (part_3 h (h.3.0, h.3.1, q, h.3.3, h.3.4))),
      (
        (λ s r q h. (part_3 h (h.3.0, q, h.3.2, h.3.3, h.3.4))),
        (
          (λ n r h. (part_3 h (h.3.0, h.3.1, h.3.2, u32-lt n, h.3.4))),
          ((λ n r h. (part_3 h (h.3.0, h.3.1, h.3.2, h.3.3, u32-lt n))), tt),
        ),
      ),
    ),
  )

  pub led_get_process-InRange : KeepsRange lib led_get_process_args
  unfolding led_get_process_args
  led_get_process-InRange = ((λ n r h. (part_3 h (u8-lt n, h.3.1, h.3.2, h.3.3, h.3.4))), tt)

  pub led_set_mode-InRange : KeepsRange lib led_set_mode_args
  unfolding led_set_mode_args
  led_set_mode-InRange = (
    (λ n r h. (part_4 h (u8-lt n, h.4.1, h.4.2, h.4.3))),
    (
      (λ s r q h. (part_4 h (h.4.0, q, h.4.2, h.4.3))),
      (
        (λ s r q h. (part_4 h (h.4.0, h.4.1, q, h.4.3))),
        ((λ s r q h. (part_4 h (h.4.0, h.4.1, h.4.2, q))), tt),
      ),
    ),
  )

  pub dout_set_mode-InRange : KeepsRange lib dout_set_mode_args
  unfolding dout_set_mode_args
  dout_set_mode-InRange = (
    (λ n r h. (part_6 h (u8-lt n, h.6.1, h.6.2, h.6.3))),
    (
      (λ s r q h. (part_6 h (h.6.0, q, h.6.2, h.6.3))),
      (
        (λ s r q h. (part_6 h (h.6.0, h.6.1, q, h.6.3))),
        ((λ n r h. (part_6 h (h.6.0, h.6.1, h.6.2, u8-lt (less_one n)))), tt),
      ),
    ),
  )

  pub dout_manual_control-InRange : KeepsRange lib dout_manual_control_args
  unfolding dout_manual_control_args
  dout_manual_control-InRange = (
    (λ n r h. (part_7 h (u8-lt n, h.7.1, h.7.2, h.7.3, h.7.4))),
    (
      (λ s r q h. (part_7 h (h.7.0, q, h.7.2, h.7.3, h.7.4))),
      (
        (λ n r h. (part_7 h (h.7.0, h.7.1, u8-lt n, h.7.3, h.7.4))),
        (
          (λ s r h. (part_7 h (h.7.0, h.7.1, h.7.2, h.7.3, first_chars-lt 15 s))),
          ((λ n r h. (part_7 h (h.7.0, h.7.1, h.7.2, u32-lt n, h.7.4))), tt),
        ),
      ),
    ),
  )

  pub camera_streaming_control-InRange : KeepsRange lib camera_streaming_control_args
  unfolding camera_streaming_control_args
  camera_streaming_control-InRange = (
    (λ n r h. (part_9 h (h.9.0, h.9.1, h.9.2, h.9.3, u8-lt n, h.9.5, h.9.6, h.9.7))),
    (set_streaming-InRange, tt),
  )

  pub modbus_set_params-InRange : KeepsRange lib modbus_set_params_args
  unfolding modbus_set_params_args
  modbus_set_params-InRange = (
    (λ n r h. (part_8 h (h.8.0, h.8.1, h.8.2, u32-lt n))),
    (
      (λ n r h. (part_8 h (u8-lt n, h.8.1, h.8.2, h.8.3))),
      (
        (λ n r h. (part_8 h (h.8.0, u8-lt n, h.8.2, h.8.3))),
        ((λ n r h. (part_8 h (h.8.0, h.8.1, u8-lt n, h.8.3))), tt),
      ),
    ),
  )

  pub io_rtc_set_mode-InRange : KeepsRange lib io_rtc_set_mode_args
  unfolding io_rtc_set_mode_args
  io_rtc_set_mode-InRange = (
    (λ n r h. (part_9 h (truth-lt n, h.9.1, h.9.2, h.9.3, h.9.4, h.9.5, h.9.6, h.9.7))),
    (
      (λ n r h. h),
      (
        (λ n r h. h),
        (
          (λ n r h. h),
          (
            (λ n r h. h),
            (
              (λ n r h. h),
              (
                (λ n r h. h),
                (
                  (λ s r h.
                      (part_9 h
                        (h.9.0, first_chars-lt 63 s, h.9.2, h.9.3, h.9.4, h.9.5, h.9.6, h.9.7))),
                  tt,
                ),
              ),
            ),
          ),
        ),
      ),
    ),
  )

  pub io_shop_floor_control-InRange : KeepsRange lib io_shop_floor_control_args
  unfolding io_shop_floor_control_args
  io_shop_floor_control-InRange =
      ((λ s r q h. (part_9 h (h.9.0, h.9.1, q, h.9.3, h.9.4, h.9.5, h.9.6, h.9.7))), tt)
