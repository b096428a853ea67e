-- ===== src/Io/Status.antt =====
-- iosCtl/iosCtl.c: `ios_LED_Status_Handler`, which the main loop calls to show the lights, the network, the
-- verdict or the inputs and outputs on the two user LEDs, with `ios_getStatus` and `check_wifi_status`.
-- `none` is a copy past the end of an array.
pub mod Laws
use vision_box_dual_cam.Base.{
  ℕ, ◌==◌, leb, ltb, Bool, true, false, ◌||◌, ◌&&◌, not, List, [], ◌∷◌, Option, some, none, String,
  codes, length, streq, if◌then◌else◌,
}
use vision_box_dual_cam.Base.Int.{ℤ, pos, negsuc}
use vision_box_dual_cam.Base.Camera.{Dual}
use vision_box_dual_cam.Node.{ProcessNode}
use vision_box_dual_cam.Io.Sysfs.{Sysfs, Os}
use vision_box_dual_cam.Io.Gpio.{export_line, set_dir, get_value}
use vision_box_dual_cam.Io.Dout.{do1_vb, do2_vb, do3_vb, do4_vb}
use vision_box_dual_cam.Io.Light.{light_source_1, light_source_2, light_get_pwm}
use vision_box_dual_cam.Io.Led.{
  Bus, Led, LedSetProcess, led_set_process, user_def1_led, user_def2_led,
}

abbrev pub di1_vb : ℕ
di1_vb = 0

abbrev pub di2_vb : ℕ
di2_vb = 1

abbrev pub di3_vb : ℕ
di3_vb = 7

abbrev pub di4_vb : ℕ
di4_vb = 8

abbrev pub ailed_detect : ℕ
ailed_detect = 86

-- The shared variables that the handler reads or writes.
pub record Lamps (Chip : Type 0) : Type 0 where
  pub led : Led Chip
  pub sysfs : Sysfs
  pub update_led_status_flg : ℕ
  pub trig_trigger1 : ℕ
  pub trig_trigger2 : ℕ

-- `IOS_IO_GET_STATUS`, but for the cameras, which nothing sets.
pub record IoStatus : Type 0 where
  pub dout1 : ℕ
  pub dout2 : ℕ
  pub dout3 : ℕ
  pub dout4 : ℕ
  pub din1 : ℕ
  pub din2 : ℕ
  pub din3 : ℕ
  pub din4 : ℕ
  pub trigger1 : ℕ
  pub trigger2 : ℕ

-- `strncmp(s, t, strlen(t)) == 0` and `strstr(s, t) != NULL` on codes.
unfoldable pub has_prefix : (t s : List ℕ) → Bool
has_prefix [] s = true
has_prefix (x ∷ t) [] = false
has_prefix (x ∷ t) (y ∷ s) = x == y && has_prefix t s

unfoldable pub strstr : (s t : List ℕ) → Bool
unfolding has_prefix
strstr [] t = has_prefix t []
strstr (y ∷ s) t = has_prefix t (y ∷ s) || strstr s t

-- `check_wifi_status`, for what the command `iwconfig` prints, if it runs. The output is gathered in 256
-- characters.
unfoldable pub check_wifi_status : Option String → Option ℤ
unfolding strstr
check_wifi_status none = some (pos 1)
check_wifi_status (some out) =
    if leb 256 (length (codes out))
    then none
    else if strstr (codes out) (codes "ESSID:off/any")
    then some (pos 0)
    else some (pos 1)

-- The colour for two things, the first in red and the second in green.
unfoldable pub colour : (red green : Bool) → String
colour red green =
    if red && green
    then "Orange ON"
    else if red
    then "Red ON"
    else if green
    then "Green ON"
    else "OFF"

unfoldable pub wifi_colour : ℤ → String
wifi_colour (pos n) = if n == 0 then "Orange ON" else "Green ON"
wifi_colour (negsuc n) = "Red ON"

unfoldable pub result_colour : String → String
result_colour r = if streq r "PASS" then "Green ON" else if streq r "NG" then "Red ON" else "OFF"

-- Is this the mode of one of the node's two LEDs?
unfoldable pub wants : String → ProcessNode → Bool
wants mode n = streq n.usr_def1_mode mode || streq n.usr_def2_mode mode

unfoldable pub on : ℕ → Bool
on v = not (v == 0)

module _ (os : Os) where
  -- `ios_getStatus`. The local `ch` of the read holds `ch`, and depends on the line.
  unfoldable pub get_status : (ch : ℕ → ℕ) → (trigger1 trigger2 : ℕ) → Sysfs → IoStatus × Sysfs
  get_status ch trigger1 trigger2 s =
      let s1 = (export_line os ailed_detect s).1 in
      let s2 = (set_dir os ailed_detect 0 s1).1 in
      (
        record {
          dout1 = (get_value os do1_vb (ch do1_vb) 0 s2).1;
          dout2 = (get_value os do2_vb (ch do2_vb) 0 s2).1;
          dout3 = (get_value os do3_vb (ch do3_vb) 0 s2).1;
          dout4 = (get_value os do4_vb (ch do4_vb) 0 s2).1;
          din1 = (get_value os di1_vb (ch di1_vb) 0 s).1;
          din2 = (get_value os di2_vb (ch di2_vb) 0 s).1;
          din3 = (get_value os di3_vb (ch di3_vb) 0 s).1;
          din4 = (get_value os di4_vb (ch di4_vb) 0 s).1;
          trigger1 = trigger1;
          trigger2 = trigger2;
        },
        s2,
      )

  -- The colour for the two lights. `value` is what the request on the stack holds.
  unfoldable pub light_colour : (stack : ℕ → ℤ) → (ret : ℤ) → (value : ℕ) → Sysfs → String
  unfolding colour
  light_colour stack ret value s =
      let p1 =
        (light_get_pwm os (stack light_source_1) ret
          (record { in_light = light_source_1; value = value }) s).1 in
      let p2 =
        (light_get_pwm os (stack light_source_2) ret (record p1 { in_light = light_source_2 })
          s).1 in
      colour (ltb 0 p1.value) (ltb 0 p2.value)

module _ {Chip : Type 0} (bus : Bus Chip) where
  -- `ios_ledSetProcess` for one LED, where its mode is the one that is shown.
  unfoldable pub show_if : Bool → (pin : ℕ) → (status : String) → Lamps Chip → Lamps Chip
  show_if b pin status s =
      if b
      then record s {
        led = (led_set_process bus (record { out_pin = pin; out_status = status }) s.led).1;
      }
      else s

  -- Both LEDs of a node.
  unfoldable pub show_on : (mode status : String) → ProcessNode → Lamps Chip → Lamps Chip
  unfolding show_if
  show_on mode status n s =
      show_if (streq n.usr_def2_mode mode) user_def2_led status
        (show_if (streq n.usr_def1_mode mode) user_def1_led status s)

  -- The part for the triggers, which looks at both nodes and takes the triggers back.
  unfoldable pub show_triggers : Dual ProcessNode → IoStatus → Lamps Chip → Lamps Chip
  unfolding wants show_on colour on
  show_triggers nodes g s =
      if wants "Trigger status" nodes.first || wants "Trigger status" nodes.second
      then (let status = colour (on g.trigger1) (on g.trigger2) in
          show_on "Trigger status" status nodes.second (
            show_on "Trigger status" status nodes.first
              (record s { trig_trigger1 = 0; trig_trigger2 = 0 })))
      else s

  -- The parts for the inputs and for the outputs: the first LED shows 1 and 2, the second 3 and 4.
  unfoldable pub show_lines :
      (mode : String) (v1 v2 v3 v4 : ℕ) → ProcessNode → Lamps Chip → Lamps Chip
  unfolding show_if colour on
  show_lines mode v1 v2 v3 v4 n s =
      show_if (streq n.usr_def2_mode mode) user_def2_led (colour (on v4) (on v3))
        (show_if (streq n.usr_def1_mode mode) user_def1_led (colour (on v2) (on v1)) s)

  -- `ios_LED_Status_Handler`: of the four groups of modes the first that one of the LEDs has.
  unfoldable pub led_status_handler :
      Os
      → (stack : ℕ → ℤ) (ret : ℤ) (value : ℕ) (ch : ℕ → ℕ) → (iwconfig : Option String)
      → Dual ProcessNode
      → Lamps Chip
      → Option (Lamps Chip)
  unfolding wants show_on show_triggers show_lines get_status light_colour wifi_colour result_colour
      check_wifi_status
  led_status_handler os stack ret value ch iwconfig nodes s =
      let n = nodes.first in
      let finish : Lamps Chip → Lamps Chip = λ s1. record s1 { update_led_status_flg = 0 } in
      if s.update_led_status_flg == 0
      then some s
      else if wants "Light status" n
      then some (finish (show_on "Light status" (light_colour os stack ret value s.sysfs) n s))
      else if wants "WiFi status" n
      then elim (check_wifi_status iwconfig) [
        | some status ↦ some (finish (show_on "WiFi status" (wifi_colour status) n s))
        | none ↦ none
      ]
      else if wants "Test result" n
      then some (finish (show_on "Test result" (result_colour n.test_result) n s))
      else if wants "Trigger status" n || wants "DI status" n || wants "DO status" n
      then (let (g, sysfs1) = get_status os ch s.trig_trigger1 s.trig_trigger2 s.sysfs in
          let s1 = show_triggers nodes g (record s { sysfs = sysfs1 }) in
          let s2 = show_lines "DI status" g.din1 g.din2 g.din3 g.din4 n s1 in
          some (finish (show_lines "DO status" g.dout1 g.dout2 g.dout3 g.dout4 n s2)))
      else some (finish s)
