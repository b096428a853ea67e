-- ===== src/Io/Tests.antt =====
-- Runs of the theorems on the outputs, the lights and the LEDs.

use vision_box_dual_cam.Base.{ℕ, ◌≡◌, ◌≤◌, refl, not, if◌then◌else◌, ◌==◌, arith}
use vision_box_dual_cam.Base.Int.{pos, success}
use vision_box_dual_cam.Base.Camera.{Dual}
use vision_box_dual_cam.Node.{ProcessNode, gi_start}
use vision_box_dual_cam.Samples.{sample_node}
use vision_box_dual_cam.Io.Light.{LightSetPwm}
use vision_box_dual_cam.Io.Led.{Bus, Led, led_i2cset}
use vision_box_dual_cam.Io.Led.Laws.{Expander, Ports, lit, led_i2cset-lit}

abbrev nodes : Dual ProcessNode
nodes = record { first = sample_node gi_start; second = sample_node gi_start }

abbrev light_2 : LightSetPwm
light_2 = record { in_light = 2; value = 0 }

-- An expander that is nothing but its two output ports.
abbrev two_ports : Bus (ℕ × ℕ)
two_ports = record {
  read_byte_data = λ r c. if r == 2 then pos c.0 else pos c.1;
  write_byte_data = λ r v c. if r == 2 then (success, (v, c.1)) else (success, (c.0, v));
}

two_ports-Expander : Expander two_ports
two_ports-Expander = record {
  keeps0 = λ v c h. refl;
  keeps1 = λ v c h. refl;
  leaves0 = λ v c. refl;
}

abbrev leds : Led (ℕ × ℕ)
leds = record { chip = (129, 2); val0 = 0; val1 = 0; blink_bit = 0 }

led_i2cset-lit_example :
    (q0 : ℕ) × (q1 : ℕ) × Ports two_ports q0 q1 (led_i2cset two_ports 9 0 leds).1.chip
    × ((j : ℕ)
        → j ≤ 15
        → lit two_ports q0 q1 j ≡ (if 9 == j then not (0 == 0) else lit two_ports 129 2 j))
led_i2cset-lit_example =
    led_i2cset-lit two_ports 9 0 129 2 leds two_ports-Expander (omega arith) (refl, refl)
