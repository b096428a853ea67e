-- ===== src/Io/Status/Laws.antt =====
-- What the LED status handler shows where the two LEDs of the node have modes of different groups.
use vision_box_dual_cam.Base.{
  ℕ, ◌≡◌, ◌≢◌, refl, ap, ◌∙◌, Bool, true, false, ◌||◌, Option, some, String, streq, streq_iff,
  streq_refl, arith,
}
use vision_box_dual_cam.Base.Int.{ℤ}
use vision_box_dual_cam.Base.Camera.{Dual}
use vision_box_dual_cam.Node.{ProcessNode}
use vision_box_dual_cam.Io.Sysfs.{Os}
use vision_box_dual_cam.Io.Led.{Bus, led_set_process, user_def1_led, user_def2_led}
use vision_box_dual_cam.Io.Status.{Lamps, wants, show_if, show_on, light_colour, led_status_handler}

-- A text that is not `t` is not found equal to it.
streq-other : (s t : String) → s ≢ t → streq s t ≡ false
streq-other s t h = other (streq s t) refl
  where
    other : (b : Bool) → streq s t ≡ b → b ≡ false
    other true e = absurd (h ((streq_iff s t).0 e))
    other false e = refl

module _ {Chip : Type 0} (bus : Bus Chip) where
  -- The LED of the node is set, and the request is done.
  abbrev pub only : (pin : ℕ) (status : String) → Lamps Chip → Lamps Chip
  only pin status s = record s {
    led = (led_set_process bus (record { out_pin = pin; out_status = status }) s.led).1;
    update_led_status_flg = 0;
  }

  light_group :
      (os : Os) (stack : ℕ → ℤ) (ret : ℤ) (value : ℕ) (ch : ℕ → ℕ) (iwconfig : Option String)
      (nodes : Dual ProcessNode) (s : Lamps Chip) (b1 b2 : Bool)
      → s.update_led_status_flg ≢ 0
      → streq nodes.first.usr_def1_mode "Light status" ≡ b1
      → streq nodes.first.usr_def2_mode "Light status" ≡ b2
      → b1 || b2 ≡ true
      → led_status_handler bus os stack ret value ch iwconfig nodes s
        ≡ some
            (record (show_if bus b2 user_def2_led
              (light_colour os stack ret value s.sysfs)
              (show_if bus b1 user_def1_led (light_colour os stack ret value s.sysfs) s)) {
                update_led_status_flg = 0;
              })
  unfolding led_status_handler wants show_on
  light_group os stack ret value ch iwconfig nodes s b1 b2 f h1 h2 o = ground arith

  -- A LED whose mode shows the lights hides the other: whatever else the mode of the other LED of the
  -- first camera's node asks for, a request for an update sets only the one with the lights, to their
  -- colour, and is done.
  led_status_handler-only :
      (os : Os) (stack : ℕ → ℤ) (ret : ℤ) (value : ℕ) (ch : ℕ → ℕ) (iwconfig : Option String)
      (n1 n2 : Dual ProcessNode) (s : Lamps Chip)
      → s.update_led_status_flg ≢ 0
      → n1.first.usr_def1_mode ≡ "Light status"
      → n1.first.usr_def2_mode ≢ "Light status"
      → n2.first.usr_def1_mode ≢ "Light status"
      → n2.first.usr_def2_mode ≡ "Light status"
      → (led_status_handler bus os stack ret value ch iwconfig n1 s
          ≡ some (only user_def1_led (light_colour os stack ret value s.sysfs) s))
        × (led_status_handler bus os stack ret value ch iwconfig n2 s
            ≡ some (only user_def2_led (light_colour os stack ret value s.sysfs) s))
  unfolding show_if
  led_status_handler-only os stack ret value ch iwconfig n1 n2 s f a b c d = (
    light_group os stack ret value ch iwconfig n1 s true false f
        (ap (λ m. streq m "Light status") a ∙ streq_refl "Light status") (streq-other _ _ b) refl,
    light_group os stack ret value ch iwconfig n2 s false true f (streq-other _ _ c)
        (ap (λ m. streq m "Light status") d ∙ streq_refl "Light status") refl,
  )
