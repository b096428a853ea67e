-- ===== src/Command/Parse/Outputs.antt =====
-- The parsers of the commands for the lights, the LEDs and the outputs.
use vision_box_dual_cam.Base.{ℕ, zero, suc, String, List, [], ◌∷◌}
use vision_box_dual_cam.Base.Int.{ℤ, pos, negsuc}
use vision_box_dual_cam.Command.Json.{Arg, int_at, string_at, text_at}
use vision_box_dual_cam.Command.Parse.Inputs.{u8, u16, u32}

-- `snprintf` with "%s": the first characters of the text.
unfoldable pub first_chars : ℕ → String → String
first_chars zero s = ""
first_chars (suc n) String.[] = ""
first_chars (suc n) (String.◌∷◌ c s) = String.◌∷◌ c (first_chars n s)

-- An `int` less one, of which a byte is kept.
unfoldable pub less_one : ℤ → ℤ
less_one (pos zero) = negsuc 0
less_one (pos (suc n)) = pos n
less_one (negsuc n) = negsuc (suc n)

module _ {J : Type 0} where
  unfoldable pub light_set_pwm_args : List (Arg J)
  unfolding u8 u16
  light_set_pwm_args =
      int_at "inLight" (λ n r. record r { setpwm = record r.setpwm { in_light = u8 n } })
      ∷ int_at "value" (λ n r. record r { setpwm = record r.setpwm { value = u16 n } })
      ∷ []

  unfoldable pub light_get_pwm_args : List (Arg J)
  unfolding u8
  light_get_pwm_args =
      int_at "inLight" (λ n r. record r { setpwm = record r.setpwm { in_light = u8 n } }) ∷ []

  unfoldable pub light_set_brightness_args : List (Arg J)
  unfolding u8 u16
  light_set_brightness_args =
      int_at "lightSource" (λ n r. record r { setpwm = record r.setpwm { in_light = u8 n } })
      ∷ int_at "Brightness" (λ n r. record r { setpwm = record r.setpwm { value = u16 n } })
      ∷ string_at "Switch" 8 (λ s r. record r { light_switch = s })
      ∷ []

  unfoldable pub led_set_process_args : List (Arg J)
  unfolding u8 u32
  led_set_process_args =
      int_at "outPin" (λ n r. record r { setled = record r.setled { out_pin = u8 n } })
      ∷ string_at "outMode" 16 (λ s r. record r { led_out_mode = s })
      ∷ string_at "outStatus" 16 (λ s r. record r { setled = record r.setled { out_status = s } })
      ∷ int_at "outBlinkDelay" (λ n r. record r { led_blink_delay = u32 n })
      ∷ int_at "outOffDelay" (λ n r. record r { led_off_delay = u32 n })
      ∷ []

  unfoldable pub led_get_process_args : List (Arg J)
  unfolding u8
  led_get_process_args =
      int_at "outPin" (λ n r. record r { setled = record r.setled { out_pin = u8 n } }) ∷ []

  unfoldable pub led_set_mode_args : List (Arg J)
  unfolding u8
  led_set_mode_args =
      int_at "LED" (λ n r. record r { set_led_mode = record r.set_led_mode { led = u8 n } })
      ∷ string_at "LedMode" 16
          (λ s r. record r { set_led_mode = record r.set_led_mode { led_mode = s } })
      ∷ string_at "Indication" 8
          (λ s r. record r { set_led_mode = record r.set_led_mode { indication = s } })
      ∷ string_at "Color" 8 (λ s r. record r { set_led_mode = record r.set_led_mode { color = s } })
      ∷ []

  unfoldable pub dout_set_mode_args : List (Arg J)
  unfolding u8 less_one
  dout_set_mode_args =
      int_at "DoutPin" (λ n r. record r { dout_mode = record r.dout_mode { out_pin = u8 n } })
      ∷ string_at "DoutActive" 8
          (λ s r. record r { dout_mode = record r.dout_mode { polarity = s } })
      ∷ string_at "SelectMode" 32
          (λ s r. record r { dout_mode = record r.dout_mode { select_mode = s } })
      ∷ int_at "CameraId"
          (λ n r. record r { dout_mode = record r.dout_mode { camera_id = u8 (less_one n) } })
      ∷ []

  -- `SelectMode` is cut to the 16 bytes of its array.
  unfoldable pub dout_manual_control_args : List (Arg J)
  unfolding u8 u32 first_chars
  dout_manual_control_args =
      int_at "DoutPin" (λ n r. record r { dout = record r.dout { out_pin = u8 n } })
      ∷ string_at "DoutActive" 16 (λ s r. record r { dout = record r.dout { out_mode = s } })
      ∷ int_at "onoffSetting" (λ n r. record r { dout = record r.dout { onoff_setting = u8 n } })
      ∷ text_at "SelectMode" (λ s r. record r { dout_select_mode = first_chars 15 s })
      ∷ int_at "OneShotPeriod"
          (λ n r. record r { dout = record r.dout { one_shot_period = u32 n } })
      ∷ []
