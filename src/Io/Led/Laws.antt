-- ===== src/Io/Led/Laws.antt =====
-- What setting one LED does to the ports of the expander.
use vision_box_dual_cam.Base.{
  ℕ, zero, suc, ◌+◌, ◌-◌, ◌*◌, ◌/◌, ◌%◌, ◌<◌, ◌≤◌, ◌≡◌, ◌≢◌, refl, ap, ◌∙◌, Bool, true, false, not,
  ◌==◌, leb, if◌then◌else◌, arith,
}
use vision_box_dual_cam.Base.Int.{pos}
use vision_box_dual_cam.Io.Led.{
  Bus, Led, test_bit, set_bit, clear_bit, to_byte, pca64_p0, pca64_p1, led_i2cset, led_i2cset_blink,
}

half_of_odd : (n : ℕ) → (n / 2 * 2 + 1) / 2 ≡ n / 2
half_of_odd n = omega arith

half_of_even : (n : ℕ) → n / 2 * 2 / 2 ≡ n / 2
half_of_even n = omega arith

half_of_both : (m n : ℕ) → (m * 2 + n % 2) / 2 ≡ m
half_of_both m n = omega arith

parity_of_both : (m n : ℕ) → (m * 2 + n % 2) % 2 ≡ n % 2
parity_of_both m n = omega arith

set_bit_self : (n k : ℕ) → test_bit (set_bit n k) k ≡ true
unfolding test_bit set_bit
set_bit_self n zero = ground arith
set_bit_self n (suc k) =
    ap (λ m. test_bit m k) (half_of_both (set_bit (n / 2) k) n) ∙ set_bit_self (n / 2) k

set_bit_other : (n k j : ℕ) → k ≢ j → test_bit (set_bit n k) j ≡ test_bit n j
unfolding test_bit set_bit
set_bit_other n zero zero h = absurd (h refl)
set_bit_other n zero (suc j) h = ap (λ m. test_bit m j) (half_of_odd n)
set_bit_other n (suc k) zero h = ap (λ m. m == 1) (parity_of_both (set_bit (n / 2) k) n)
set_bit_other n (suc k) (suc j) h =
    ap (λ m. test_bit m j) (half_of_both (set_bit (n / 2) k) n)
    ∙ set_bit_other (n / 2) k j (λ e. h (ap suc e))

clear_bit_self : (n k : ℕ) → test_bit (clear_bit n k) k ≡ false
unfolding test_bit clear_bit
clear_bit_self n zero = ground arith
clear_bit_self n (suc k) =
    ap (λ m. test_bit m k) (half_of_both (clear_bit (n / 2) k) n) ∙ clear_bit_self (n / 2) k

clear_bit_other : (n k j : ℕ) → k ≢ j → test_bit (clear_bit n k) j ≡ test_bit n j
unfolding test_bit clear_bit
clear_bit_other n zero zero h = absurd (h refl)
clear_bit_other n zero (suc j) h = ap (λ m. test_bit m j) (half_of_even n)
clear_bit_other n (suc k) zero h = ap (λ m. m == 1) (parity_of_both (clear_bit (n / 2) k) n)
clear_bit_other n (suc k) (suc j) h =
    ap (λ m. test_bit m j) (half_of_both (clear_bit (n / 2) k) n)
    ∙ clear_bit_other (n / 2) k j (λ e. h (ap suc e))

byte_bit : (n j : ℕ) → j ≤ 7 → test_bit (n % 256) j ≡ test_bit n j
unfolding test_bit
byte_bit n zero h = ground arith
byte_bit n (suc zero) h = ground arith
byte_bit n (suc (suc zero)) h = ground arith
byte_bit n (suc (suc (suc zero))) h = ground arith
byte_bit n (suc (suc (suc (suc zero)))) h = ground arith
byte_bit n (suc (suc (suc (suc (suc zero))))) h = ground arith
byte_bit n (suc (suc (suc (suc (suc (suc zero)))))) h = ground arith
byte_bit n (suc (suc (suc (suc (suc (suc (suc zero))))))) h = ground arith
byte_bit n (suc (suc (suc (suc (suc (suc (suc (suc j)))))))) h = absurd (too_large j h)
  where
    too_large : (j : ℕ) → suc (suc (suc (suc (suc (suc (suc (suc j))))))) ≤ 7 → ⊥
    too_large j h = omega arith

-- What a port expander does: a byte written to one of its two output ports is read back from it, and
-- from the other port what was there before.
pub record Expander {Chip : Type 0} (bus : Bus Chip) : Type 0 where
  pub keeps0 :
      (v : ℕ) (c : Chip)
      → v < 256
      → bus.read_byte_data pca64_p0 (bus.write_byte_data pca64_p0 v c).1 ≡ pos v
  pub keeps1 :
      (v : ℕ) (c : Chip)
      → v < 256
      → bus.read_byte_data pca64_p1 (bus.write_byte_data pca64_p1 v c).1 ≡ pos v
  pub leaves0 :
      (v : ℕ) (c : Chip)
      → bus.read_byte_data pca64_p0 (bus.write_byte_data pca64_p1 v c).1
        ≡ bus.read_byte_data pca64_p0 c

module _ {Chip : Type 0} (bus : Bus Chip) where
  -- The two ports read as these numbers.
  abbrev pub Ports : ℕ → ℕ → Chip → Type 0
  Ports p0 p1 c =
      (bus.read_byte_data pca64_p0 c ≡ pos p0) × (bus.read_byte_data pca64_p1 c ≡ pos p1)

  -- Whether the LED with number `j` is on.
  abbrev pub lit : ℕ → ℕ → ℕ → Bool
  lit p0 p1 j = if leb j 7 then test_bit p0 j else test_bit p1 (j - 8)

  -- The bytes that are written.
  new0 : (led active : ℕ) → ℕ → ℕ
  new0 led active p0 =
      if leb led 7
      then (if active == 0 then clear_bit (p0 % 256) led else set_bit (p0 % 256) led)
      else p0 % 256

  new1 : (led active : ℕ) → ℕ → ℕ
  new1 led active p1 =
      if leb led 7
      then p1 % 256
      else if active == 0
      then clear_bit (p1 % 256) (led - 8)
      else set_bit (p1 % 256) (led - 8) % 256

  Ports-after :
      (led active p0 p1 : ℕ) (s : Led Chip)
      → Expander bus
      → Ports p0 p1 s.chip
      → Ports
          (new0 led active p0 % 256)
          (new1 led active p1 % 256)
          (led_i2cset bus led active s).1.chip
  unfolding led_i2cset led_i2cset_blink to_byte new0 new1
  Ports-after led active p0 p1 s x (h0, h1) =
      rw (led_i2cset, led_i2cset_blink, h0, h1)
        (x.leaves0 _ _ ∙ x.keeps0 _ _ (omega arith), x.keeps1 _ _ (omega arith))

  changed_bit :
      (active n k j : ℕ)
      → k ≤ 7
      → j ≤ 7
      → test_bit ((if active == 0 then clear_bit (n % 256) k else set_bit (n % 256) k) % 256) j
        ≡ (if k == j then not (active == 0) else test_bit n j)
  changed_bit active n k j h g = ground (
    arith,
    byte_bit (clear_bit (n % 256) k) j g,
    byte_bit (set_bit (n % 256) k) j g,
    byte_bit n j g,
    set_bit_self (n % 256) k,
    set_bit_other (n % 256) k j,
    clear_bit_self (n % 256) k,
    clear_bit_other (n % 256) k j,
  )

  -- Setting one of the ten LEDs, or any of the sixteen bits of the two ports, switches that LED to what was
  -- asked for and leaves every other as it was. The expander is taken to answer every read, and to
  -- keep what is written to it.
  pub led_i2cset-lit :
      (led active p0 p1 : ℕ) (s : Led Chip)
      → Expander bus
      → led ≤ 15
      → Ports p0 p1 s.chip
      → (q0 : ℕ) × (q1 : ℕ) × Ports q0 q1 (led_i2cset bus led active s).1.chip
        × ((j : ℕ) → j ≤ 15 → lit q0 q1 j ≡ (if led == j then not (active == 0) else lit p0 p1 j))
  led_i2cset-lit led active p0 p1 s x h p =
      (new0 led active p0 % 256, new1 led active p1 % 256, Ports-after led active p0 p1 s x p, bits)
    where
      bits :
          (j : ℕ)
          → j ≤ 15
          → lit (new0 led active p0 % 256) (new1 led active p1 % 256) j
            ≡ (if led == j then not (active == 0) else lit p0 p1 j)
      bits j g =
          unfold new0 new1 in
          ground (
            arith,
            changed_bit active p0 led j,
            changed_bit active p1 (led - 8) (j - 8),
            byte_bit (p0 % 256) j,
            byte_bit p0 j,
            byte_bit (p1 % 256) (j - 8),
            byte_bit p1 (j - 8),
          )
