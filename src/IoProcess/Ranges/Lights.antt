-- ===== src/IoProcess/Ranges/Lights.antt =====
-- The branches of `ios_process` for the lights, the status, the trigger and the test mode.
use vision_box_dual_cam.Command.Bounds.Parts.{part_0}
use vision_box_dual_cam.Base.{◌^◌, ◌<◌, ◌%◌, ◌/◌, ◌==◌, arith}
use vision_box_dual_cam.Base.Int.{ℤ, pos, negsuc}
use vision_box_dual_cam.Io.Sysfs.{Sysfs}
use vision_box_dual_cam.Io.Light.{
  LightSetPwm, light_source_1, light_source_2, light_get_pwm, ailed_step_level,
}
use vision_box_dual_cam.Command.{Requests}
use vision_box_dual_cam.Command.Bounds.{InRange}
use vision_box_dual_cam.IoProcess.Station.{Env, Plant, mqtt_publisher_dual}
use vision_box_dual_cam.IoProcess.Handle.{
  answer, light_set_pwm_step, light_get_pwm_step, light_set_brightness_step, dio_get_status_step,
  trigger_set_mode_step, auto_test_set_mode_step,
}
use vision_box_dual_cam.Io.Status.{get_status}
use vision_box_dual_cam.Io.Pwm.{read_duty_cycle}
use vision_box_dual_cam.Base.{◌||◌}
use vision_box_dual_cam.Base.Int.{failure}
use vision_box_dual_cam.Base.{either}
use vision_box_dual_cam.IoProcess.Bounds.{with_brightness-InRange}
use vision_box_dual_cam.IoProcess.Bounds.{PlantInRange}

module _ {Chip : Type 0} (env : Env Chip) where
  read-InRange :
      (z ret : ℤ) (q : LightSetPwm)
      → q.value < 2 ^ 16
      → (elim z as (λ _. ℤ × LightSetPwm) [
        | pos n ↦ (pos n, record q { value = n / ailed_step_level % 2 ^ 16 })
        | negsuc n ↦ (ret, q)
      ]).1.value
        < 2 ^ 16
  read-InRange (pos n) ret q h = omega arith
  read-InRange (negsuc n) ret q h = h

  light-InRange :
      (stack ret : ℤ) (q : LightSetPwm) (s : Sysfs)
      → q.value < 2 ^ 16
      → (light_get_pwm env.os stack ret q s).1.value < 2 ^ 16
  unfolding light_get_pwm
  light-InRange stack ret q s h =
      either (λ (x : ℤ × LightSetPwm). x.1.value < 2 ^ 16)
        (q.in_light == light_source_1 || q.in_light == light_source_2) _ _
        (read-InRange (read_duty_cycle env.os q.in_light stack s) failure q h) h

  pub light_set_pwm-InRange :
      (p : Plant Chip) → PlantInRange p → PlantInRange (light_set_pwm_step env p)
  unfolding light_set_pwm_step answer mqtt_publisher_dual
  light_set_pwm-InRange p h =
      let v = p.requests.setpwm.value in
      (with_brightness-InRange v v p.requests h.0.2.1 h.0.2.1 h.0, h.1)

  pub light_get_pwm-InRange :
      (p : Plant Chip)
      → env.stack_value < 2 ^ 16
      → PlantInRange p
      → PlantInRange (light_get_pwm_step env p)
  unfolding light_get_pwm_step answer mqtt_publisher_dual
  light_get_pwm-InRange p g h =
      let q1 : LightSetPwm = record { in_light = light_source_1; value = env.stack_value } in
      let v1 = (light_get_pwm env.os (env.stack_read 1) env.stack_ret q1 p.dout.sysfs).1.value in
      let q2 : LightSetPwm = record { in_light = light_source_2; value = v1 } in
      let v2 = (light_get_pwm env.os (env.stack_read 2) env.stack_ret q2 p.dout.sysfs).1.value in
      let g1 = light-InRange (env.stack_read 1) env.stack_ret q1 p.dout.sysfs g in
      let g2 = light-InRange (env.stack_read 2) env.stack_ret q2 p.dout.sysfs g1 in
      (with_brightness-InRange v1 v2 p.requests g1 g2 h.0, h.1)

  pub light_set_brightness-InRange :
      (p : Plant Chip) → PlantInRange p → PlantInRange (light_set_brightness_step env p)
  unfolding light_set_brightness_step
  light_set_brightness-InRange p h =
      let r : Requests = p.requests in
      let v = r.setpwm.value in
      (
        either InRange (r.setpwm.in_light == light_source_1) _ _
            (with_brightness-InRange v r.nodes.first.brightness2 r h.0.2.1 h.0.10.13 h.0)
            (either InRange (r.setpwm.in_light == light_source_2) _ _
              (with_brightness-InRange r.nodes.first.brightness1 v r h.0.10.12 h.0.2.1 h.0) h.0),
        h.1,
      )

  pub dio-InRange : (p : Plant Chip) → PlantInRange p → PlantInRange (dio_get_status_step env p)
  unfolding dio_get_status_step answer mqtt_publisher_dual get_status
  dio-InRange p h = h

  pub trigger_set_mode-InRange :
      (p : Plant Chip) → PlantInRange p → PlantInRange (trigger_set_mode_step p)
  unfolding trigger_set_mode_step
  trigger_set_mode-InRange p h = (
    (part_0 h.0 (
      h.0.0.0,
      h.0.0.1,
      either (λ n. n < 256) (p.requests.trigger.out_pin == light_source_1) 5 6 (omega arith)
          (omega arith),
      h.0.0.3,
    )),
    h.1,
  )

  pub auto_test-InRange :
      (p : Plant Chip) → PlantInRange p → PlantInRange (auto_test_set_mode_step p)
  unfolding auto_test_set_mode_step answer mqtt_publisher_dual
  auto_test-InRange p h = either PlantInRange (p.ios_cameraid == 0) _ _ h h
