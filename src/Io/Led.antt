-- ===== src/Io/Led.antt =====
-- iosCtl/iosCtl.c: the LEDs, which hang on the two output ports of an I2C port expander.
pub mod Laws
use vision_box_dual_cam.Base.{
  ℕ, zero, suc, ◌+◌, ◌-◌, ◌*◌, ◌/◌, ◌%◌, Bool, true, false, ◌||◌, ◌&&◌, String, List, [], ◌∷◌, ◌==◌,
  leb, if◌then◌else◌, strcaseeq,
}
use vision_box_dual_cam.Base.Int.{ℤ, pos, negsuc, success}

-- The expander behind `iosLED_file`, and the two calls of the I2C library on it.
pub record Bus (Chip : Type 0) : Type 0 where
  pub read_byte_data : ℕ → Chip → ℤ
  pub write_byte_data : ℕ → ℕ → Chip → ℤ × Chip

abbrev pub pca64_p0 : ℕ
pca64_p0 = 2

abbrev pub pca64_p1 : ℕ
pca64_p1 = 3

abbrev pub led3_vb_user1_r : ℕ
led3_vb_user1_r = 6

abbrev pub led3_vb_user1_g : ℕ
led3_vb_user1_g = 7

abbrev pub led4_vb_user2_r : ℕ
led4_vb_user2_r = 8

abbrev pub led4_vb_user2_g : ℕ
led4_vb_user2_g = 9

-- `UserDef2LED` and `UserDef1LED` of the enum `LED`, whose first is `PowerLED`, 1.
abbrev pub user_def2_led : ℕ
user_def2_led = 4

abbrev pub user_def1_led : ℕ
user_def1_led = 5

-- The shared variables: two bytes, and the bits of the LEDs that are to blink.
pub record Led (Chip : Type 0) : Type 0 where
  pub chip : Chip
  pub val0 : ℕ  -- iosLED_val0
  pub val1 : ℕ  -- iosLED_val1
  pub blink_bit : ℕ  -- iosLED_blink_bit

-- `n & (1 << k)`, `n | (1 << k)` and `n & ~(1 << k)` for a number that is not negative.
unfoldable pub test_bit : ℕ → ℕ → Bool
test_bit n zero = n % 2 == 1
test_bit n (suc k) = test_bit (n / 2) k

unfoldable pub set_bit : ℕ → ℕ → ℕ
set_bit n zero = n / 2 * 2 + 1
set_bit n (suc k) = set_bit (n / 2) k * 2 + n % 2

unfoldable pub clear_bit : ℕ → ℕ → ℕ
clear_bit n zero = n / 2 * 2
clear_bit n (suc k) = clear_bit (n / 2) k * 2 + n % 2

-- An `int` kept in a `char` of 8 bits, as a byte: a negative result becomes one, too.
unfoldable pub to_byte : ℤ → ℕ
to_byte (pos n) = n % 256
to_byte (negsuc n) = 255 - n % 256

-- `IOS_LED_SET_PROCESS`, but for what the function only prints.
pub record LedSetProcess : Type 0 where
  pub out_pin : ℕ
  pub out_status : String

module _ {Chip : Type 0} (bus : Bus Chip) where
  -- `iosLED_i2cset_blink`: both ports, and the result of the second write.
  unfoldable pub led_i2cset_blink : (val0 val1 : ℕ) → Led Chip → ℤ × Led Chip
  led_i2cset_blink val0 val1 s =
      let (ret0, chip0) = bus.write_byte_data pca64_p0 (val0 % 256) s.chip in
      let (ret1, chip1) = bus.write_byte_data pca64_p1 (val1 % 256) chip0 in
      (ret1, record s { chip = chip1 })

  -- `iosLED_i2cset`: read both ports, change the bit of the LED, write both ports. A read that fails
  -- is printed at most, and its result is taken for the port's value.
  unfoldable pub led_i2cset : (led active : ℕ) → Led Chip → ℤ × Led Chip
  unfolding to_byte led_i2cset_blink
  led_i2cset led active s =
      let r0 = to_byte (bus.read_byte_data pca64_p0 s.chip) in
      let r1 = to_byte (bus.read_byte_data pca64_p1 s.chip) in
      let v0 : ℕ =
        if leb led 7 then (if active == 0 then clear_bit r0 led else set_bit r0 led) else r0 in
      let v1 : ℕ =
        if leb led 7
        then r1
        else if active == 0
        then clear_bit r1 (led - 8)
        else set_bit r1 (led - 8) % 256 in
      led_i2cset_blink v0 v1 (record s { val0 = v0; val1 = v1 })

  -- `iosLED_i2cget`, which keeps either port in `iosLED_val0`.
  unfoldable pub led_i2cget : ℕ → Led Chip → ℕ × Led Chip
  unfolding to_byte
  led_i2cget port s =
      let v = to_byte (bus.read_byte_data (if port == 0 then pca64_p0 else pca64_p1) s.chip) in
      (v, record s { val0 = v })

  -- One call of `iosLED_i2cset` whose result is dropped, and the two changes of the blink bits.
  unfoldable pub put : (led active : ℕ) → Led Chip → Led Chip
  unfolding led_i2cset
  put led active s = (led_i2cset led active s).1

  unfoldable pub still : ℕ → Led Chip → Led Chip
  still led s = record s { blink_bit = clear_bit s.blink_bit led }

  unfoldable pub blink : ℕ → Led Chip → Led Chip
  blink led s = record s { blink_bit = set_bit s.blink_bit led }

  -- The branches of `ios_ledSetProcess` on `outStatus`, for the red and the green LED of the pin.
  unfoldable pub set_status : String → (r g : ℕ) → Led Chip → Led Chip
  unfolding put still blink
  set_status status r g s =
      if strcaseeq status "OFF"
      then put g 0 (put r 0 s)
      else if strcaseeq status "Red ON"
      then still r (put g 0 (put r 1 s))
      else if strcaseeq status "Red OFF"
      then still r (put r 0 s)
      else if strcaseeq status "Red Blink"
      then blink r (put g 0 (put r 1 s))
      else if strcaseeq status "Green ON"
      then still g (put g 1 (put r 0 s))
      else if strcaseeq status "Green OFF"
      then still g (put g 0 s)
      else if strcaseeq status "Green Blink"
      then blink g s
      else if strcaseeq status "Orange ON"
      then still r (put r 1 (still g (put g 1 s)))
      else if strcaseeq status "Orange OFF"
      then still r (put r 0 (still g (put g 0 s)))
      else if strcaseeq status "Orange Blink"
      then blink g (blink r s)
      else s

  -- `ios_ledSetProcess`.
  unfoldable pub led_set_process : LedSetProcess → Led Chip → ℤ × Led Chip
  unfolding set_status
  led_set_process p s = (
    success,
    if leb 1 p.out_pin && leb p.out_pin user_def1_led
        then (if p.out_pin == user_def1_led
            then set_status p.out_status led3_vb_user1_r led3_vb_user1_g s
            else if p.out_pin == user_def2_led
            then set_status p.out_status led4_vb_user2_r led4_vb_user2_g s
            else s)
        else s,
  )
