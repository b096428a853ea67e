-- ===== src/IoProcess/Bounds.antt =====
-- The branches of `ios_process` against the types and array sizes of common.h.
use vision_box_dual_cam.Command.Bounds.Parts.{part_3}
use vision_box_dual_cam.Base.{
  ◌≡◌, subst, some, none, Option, ℕ, ◌^◌, ◌<◌, ◌==◌, String, streq, arith,
}
use vision_box_dual_cam.Base.Camera.{Dual}
use vision_box_dual_cam.Node.{ProcessNode}
use vision_box_dual_cam.Io.Led.{user_def1_led, user_def2_led}
use vision_box_dual_cam.Command.{Requests, LedSetMode, DoutSetMode}
use vision_box_dual_cam.Command.Bounds.{
  ModbusInRange, Fits, NodeInRange, InRange, LedModeInRange, DoutModeInRange,
}
use vision_box_dual_cam.Base.{either}
use vision_box_dual_cam.Command.Bounds.Nodes.{BothInRange}
use vision_box_dual_cam.IoProcess.Station.{Plant}
use vision_box_dual_cam.IoProcess.Mode.{
  with_status, with_out_pin, colour_status, indicate, assign_led, assign_dout,
}
use vision_box_dual_cam.IoProcess.Handle.{with_brightness}

pub with_nodes :
    (r : Requests) (d : Dual ProcessNode)
    → InRange r
    → BothInRange d
    → InRange (record r { nodes = d })
with_nodes r d h g = (h.0, h.1, h.2, h.3, h.4, h.5, h.6, h.7, h.8, h.9, g.0, g.1)

pub brightness-InRange :
    (b1 b2 : ℕ) (n : ProcessNode)
    → b1 < 2 ^ 16
    → b2 < 2 ^ 16
    → NodeInRange n
    → NodeInRange (record n { brightness1 = b1; brightness2 = b2 })
brightness-InRange b1 b2 n p q h =
    (h.0, h.1, h.2, h.3, h.4, h.5, h.6, h.7, h.8, h.9, h.10, h.11, p, q)

pub with_brightness-InRange :
    (b1 b2 : ℕ) (r : Requests)
    → b1 < 2 ^ 16
    → b2 < 2 ^ 16
    → InRange r
    → InRange (with_brightness b1 b2 r)
unfolding with_brightness
with_brightness-InRange b1 b2 r p q h =
    with_nodes r
      (record r.nodes { first = record r.nodes.first { brightness1 = b1; brightness2 = b2 } }) h
      (brightness-InRange b1 b2 r.nodes.first p q h.10, h.11)

pub status-InRange : (s : String) (r : Requests) → Fits 16 s → InRange r → InRange (with_status s r)
status-InRange s r q h = (part_3 h (h.3.0, q, h.3.2, h.3.3, h.3.4))

pub out_pin-InRange : (n : ℕ) (r : Requests) → n < 256 → InRange r → InRange (with_out_pin n r)
out_pin-InRange n r q h = (part_3 h (q, h.3.1, h.3.2, h.3.3, h.3.4))

pub out_mode-InRange :
    (s : String) (r : Requests) → Fits 16 s → InRange r → InRange (record r { led_out_mode = s })
out_mode-InRange s r q h = (part_3 h (h.3.0, h.3.1, q, h.3.3, h.3.4))

pub delays-InRange :
    (a b : ℕ) (r : Requests)
    → a < 2 ^ 32
    → b < 2 ^ 32
    → InRange r
    → InRange (record r { led_blink_delay = a; led_off_delay = b })
delays-InRange a b r p q h = (part_3 h (h.3.0, h.3.1, h.3.2, p, q))

pub colour_status-InRange :
    (c red green orange : String) (r : Requests)
    → Fits 16 red
    → Fits 16 green
    → Fits 16 orange
    → InRange r
    → InRange (colour_status c red green orange r)
unfolding colour_status
colour_status-InRange c red green orange r p q s h =
    either InRange (streq c "Red") _ _ (status-InRange red r p h) (
      either InRange (streq c "Green") _ _ (status-InRange green r q h)
        (either InRange (streq c "Orange") _ _ (status-InRange orange r s h) h))

pub indicate-InRange : (m : LedSetMode) (r : Requests) → InRange r → InRange (indicate m r)
unfolding indicate
indicate-InRange m r h =
    either InRange (streq m.indication "ON") _ _
      (delays-InRange 0 0 (colour_status m.color "Red ON" "Green ON" "Orange ON" r) (omega arith)
        (omega arith)
        (colour_status-InRange m.color "Red ON" "Green ON" "Orange ON" r (omega arith) (omega arith)
          (omega arith) h))
      (either InRange (streq m.indication "OFF") _ _
        (delays-InRange 0 0 (with_status "OFF" r) (omega arith) (omega arith)
          (status-InRange "OFF" r (omega arith) h))
        (either InRange (streq m.indication "Blink") _ _
          (out_mode-InRange "AI status"
            (record (colour_status m.color "Red Blinking" "Green Blinking" "Orange Blinking" r) {
              led_blink_delay = 10000;
              led_off_delay = 0;
            })
            (omega arith)
            (delays-InRange 10000 0
              (colour_status m.color "Red Blinking" "Green Blinking" "Orange Blinking" r)
              (omega arith) (omega arith)
              (colour_status-InRange m.color "Red Blinking" "Green Blinking" "Orange Blinking" r
                (omega arith) (omega arith) (omega arith) h)))
          h))

pub usr_def1-InRange :
    (s : String) (n : ProcessNode)
    → Fits 16 s
    → NodeInRange n
    → NodeInRange (record n { usr_def1_mode = s })
usr_def1-InRange s n q h = (h.0, h.1, h.2, h.3, h.4, h.5, h.6, h.7, h.8, h.9, q, h.11, h.12, h.13)

pub usr_def2-InRange :
    (s : String) (n : ProcessNode)
    → Fits 16 s
    → NodeInRange n
    → NodeInRange (record n { usr_def2_mode = s })
usr_def2-InRange s n q h = (h.0, h.1, h.2, h.3, h.4, h.5, h.6, h.7, h.8, h.9, h.10, q, h.12, h.13)

pub assign_led-InRange :
    (m : LedSetMode) (r : Requests) → LedModeInRange m → InRange r → InRange (assign_led m r)
unfolding assign_led
assign_led-InRange m r g h =
    either InRange (m.led == 1) _ _
      (with_nodes (with_out_pin user_def1_led r)
        (record r.nodes { first = record r.nodes.first { usr_def1_mode = m.led_mode } })
        (out_pin-InRange user_def1_led r (omega arith) h)
        (usr_def1-InRange m.led_mode r.nodes.first g.1 h.10, h.11))
      (either InRange (m.led == 2) _ _
        (with_nodes (with_out_pin user_def2_led r)
          (record r.nodes { first = record r.nodes.first { usr_def2_mode = m.led_mode } })
          (out_pin-InRange user_def2_led r (omega arith) h)
          (usr_def2-InRange m.led_mode r.nodes.first g.1 h.10, h.11))
        h)

pub assign_dout-InRange :
    (m : DoutSetMode) (n : ProcessNode)
    → DoutModeInRange m
    → NodeInRange n
    → NodeInRange (assign_dout m n)
unfolding assign_dout
assign_dout-InRange m n g h =
    let small : Fits 16 m.polarity = omega (arith, g.1) in
    either NodeInRange (m.out_pin == 1) _ _
      (h.0, h.1, small, h.3, h.4, h.5, g.2, h.7, h.8, h.9, h.10, h.11, h.12, h.13)
      (either NodeInRange (m.out_pin == 2) _ _
        (h.0, h.1, h.2, small, h.4, h.5, h.6, g.2, h.8, h.9, h.10, h.11, h.12, h.13)
        (either NodeInRange (m.out_pin == 3) _ _
          (h.0, h.1, h.2, h.3, small, h.5, h.6, h.7, g.2, h.9, h.10, h.11, h.12, h.13)
          (either NodeInRange (m.out_pin == 4) _ _
            (h.0, h.1, h.2, h.3, h.4, small, h.6, h.7, h.8, g.2, h.10, h.11, h.12, h.13) h)))

-- The requests are in range, and so are the parameters of the Modbus server.
abbrev pub PlantInRange : {Chip : Type 0} → Plant Chip → Type 0
PlantInRange p = InRange p.requests × ModbusInRange p.modbus.params

module _ {Chip : Type 0} where
  -- What a step may leave, if it does not end the process.
  abbrev pub Leaves : Option (Plant Chip) → Type 0
  Leaves none = Unit
  Leaves (some p) = PlantInRange p

  pub left : (o : Option (Plant Chip)) (p : Plant Chip) → o ≡ some p → Leaves o → PlantInRange p
  left o p e h = subst Leaves e h
