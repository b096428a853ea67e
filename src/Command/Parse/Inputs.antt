-- ===== src/Command/Parse/Inputs.antt =====
-- The parsers of the commands for the trigger and the inputs.
use vision_box_dual_cam.Base.{ℕ, ◌^◌, ◌==◌, List, [], ◌∷◌, if◌then◌else◌}
use vision_box_dual_cam.Base.Int.{ℤ, wrap}
use vision_box_dual_cam.Command.{Requests}
use vision_box_dual_cam.Command.Json.{Arg, int_at, string_at}

-- The conversions to `uint8_t`, `uint16_t` and `uint32_t`.
unfoldable pub u8 : ℤ → ℕ
unfolding wrap
u8 = wrap 256

unfoldable pub u16 : ℤ → ℕ
unfolding wrap
u16 = wrap (2 ^ 16)

unfoldable pub u32 : ℤ → ℕ
unfolding wrap
u32 = wrap (2 ^ 32)

-- The tests on `CameraId`, a `char`.
unfoldable pub assign_din : ℕ → Requests → Requests
assign_din camera_id r =
    if camera_id == 1
    then record r { trig_din_mode = r.set_din_mode.din_pin }
    else if camera_id == 2
    then record r { trig_din_mode_dual = r.set_din_mode.din_pin }
    else r

module _ {J : Type 0} where
  unfoldable pub trigger_set_process_args : List (Arg J)
  unfolding u8 u32
  trigger_set_process_args =
      int_at "inPin" (λ n r. record r { trigger = record r.trigger { in_pin = u8 n } })
      ∷ string_at "inMode" 16 (λ s r. record r { trigger = record r.trigger { in_mode = s } })
      ∷ int_at "outPin" (λ n r. record r { trigger = record r.trigger { out_pin = u8 n } })
      ∷ int_at "outDelay" (λ n r. record r { trigger = record r.trigger { out_delay = u32 n } })
      ∷ []

  unfoldable pub trigger_get_process_args : List (Arg J)
  unfolding u8
  trigger_get_process_args =
      int_at "inPin" (λ n r. record r { trigger = record r.trigger { in_pin = u8 n } })
      ∷ int_at "outPin" (λ n r. record r { trigger = record r.trigger { out_pin = u8 n } })
      ∷ []

  unfoldable pub trigger_set_mode_args : List (Arg J)
  unfolding u8 u32
  trigger_set_mode_args =
      int_at "TriggerPin" (λ n r. record r { trigger = record r.trigger { in_pin = u8 n } })
      ∷ string_at "TriggerActive" 16
          (λ s r. record r { trigger = record r.trigger { in_mode = s } })
      ∷ int_at "LightSource" (λ n r. record r { trigger = record r.trigger { out_pin = u8 n } })
      ∷ int_at "LightPeriod" (λ n r. record r { trigger = record r.trigger { out_delay = u32 n } })
      ∷ []

  unfoldable pub din_set_process_args : List (Arg J)
  unfolding u8 u16 u32
  din_set_process_args =
      int_at "inPin" (λ n r. record r { di = record r.di { in_pin = u8 n } })
      ∷ string_at "inMode" 16 (λ s r. record r { di = record r.di { in_mode = s } })
      ∷ int_at "inControlMode" (λ n r. record r { di = record r.di { in_control_mode = u16 n } })
      ∷ int_at "inDelay" (λ n r. record r { di = record r.di { in_delay = u32 n } })
      ∷ int_at "outPin" (λ n r. record r { di = record r.di { out_pin = u8 n } })
      ∷ string_at "outMode" 16 (λ s r. record r { di = record r.di { out_mode = s } })
      ∷ int_at "outControlMode" (λ n r. record r { di = record r.di { out_control_mode = u16 n } })
      ∷ int_at "outDelay" (λ n r. record r { di = record r.di { out_delay = u32 n } })
      ∷ int_at "onoffSetting" (λ n r. record r { di = record r.di { onoff_setting = u8 n } })
      ∷ []

  unfoldable pub din_get_process_args : List (Arg J)
  unfolding u8
  din_get_process_args =
      int_at "inPin" (λ n r. record r { di = record r.di { in_pin = u8 n } })
      ∷ int_at "outPin" (λ n r. record r { di = record r.di { out_pin = u8 n } })
      ∷ []

  unfoldable pub din_set_mode_args : List (Arg J)
  unfolding u8 assign_din
  din_set_mode_args =
      int_at "DinPin" (λ n r. record r { set_din_mode = record r.set_din_mode { din_pin = u8 n } })
      ∷ string_at "DinActive" 8
          (λ s r. record r { set_din_mode = record r.set_din_mode { din_polarity = s } })
      ∷ string_at "SelectMode" 32
          (λ s r. record r { set_din_mode = record r.set_din_mode { select_mode = s } })
      ∷ int_at "CameraId" (λ n r. assign_din (u8 n) r)
      ∷ []
