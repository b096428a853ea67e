-- ===== src/Io/Light.antt =====
-- iosCtl/iosCtl.c: the two lights, driven by the duty cycle of a PWM channel each.
pub mod Laws
use vision_box_dual_cam.Base.{
  ℕ, zero, ◌*◌, ◌/◌, ◌%◌, ◌^◌, Bool, true, false, ◌||◌, ◌==◌, if◌then◌else◌,
}
use vision_box_dual_cam.Base.Int.{ℤ, pos, negsuc, success, failure}
use vision_box_dual_cam.Io.Sysfs.{Sysfs, Os}
use vision_box_dual_cam.Io.Pwm.{write_duty_cycle, read_duty_cycle}
use vision_box_dual_cam.Node.{ProcessNode}

abbrev pub light_source_1 : ℕ
light_source_1 = 1

abbrev pub light_source_2 : ℕ
light_source_2 = 2

abbrev pub lighting_pwm1_num : ℕ
lighting_pwm1_num = 1

abbrev pub lighting_pwm2_num : ℕ
lighting_pwm2_num = 2

abbrev pub ailed_step_level : ℕ
ailed_step_level = 195

-- `IOS_LIGHT_SET_PWM`, but for `LightSwitch`, which no function here reads.
pub record LightSetPwm : Type 0 where
  pub in_light : ℕ  -- uint8_t
  pub value : ℕ  -- uint16_t

module _ (os : Os) where
  -- `ios_lightSetPWM`. The product fits an `int` for every 16-bit value.
  unfoldable pub light_set_pwm : LightSetPwm → Sysfs → ℤ × Sysfs
  light_set_pwm p s =
      if p.in_light == light_source_1 || p.in_light == light_source_2
      then (let in_light : ℕ =
            if p.in_light == light_source_1 then lighting_pwm1_num else lighting_pwm2_num in
          let (ret, s') = write_duty_cycle os in_light (p.value * ailed_step_level) s in
          elim ret [ pos zero ↦ (success, s') | _ ↦ (failure, s') ])
      else (success, s)

  -- `ios_lightGetPWM`: the result, and the request with the value filled in. `stack` is what the
  -- buffer of the read holds, `ret` what the uninitialised `ret` holds for another light.
  unfoldable pub light_get_pwm : (stack ret : ℤ) → LightSetPwm → Sysfs → ℤ × LightSetPwm
  light_get_pwm stack ret p s =
      if p.in_light == light_source_1 || p.in_light == light_source_2
      then elim (read_duty_cycle os p.in_light stack s) [
        | pos n ↦ (pos n, record p { value = n / ailed_step_level % 2 ^ 16 })
        | negsuc n ↦ (failure, p)
      ]
      else (ret, p)

  -- `ios_Control_Light_Handler`: the node is `Process_Node`, for both lights.
  unfoldable pub control_light_handler : ProcessNode → (light_pin enable : ℕ) → Sysfs → Sysfs
  unfolding light_set_pwm
  control_light_handler n light_pin enable s =
      (light_set_pwm
        (record {
          in_light = light_pin;
          value =
              if enable == 0
              then 0
              else if light_pin == light_source_1
              then n.brightness1
              else n.brightness2;
        })
        s).1
