-- ===== src/Io/Pwm.antt =====
-- iosCtl/pwm.c: one function per attribute of a PWM channel.
use vision_box_dual_cam.Base.{ℕ, zero, suc, ◌+◌, ◌/◌, ltb, none, some, String, if◌then◌else◌}
use vision_box_dual_cam.Base.Int.{ℤ, success, failure}
use vision_box_dual_cam.Io.Sysfs.{
  SysfsFile, pwm_export, pwm_unexport, pwm_period, pwm_duty_cycle, pwm_polarity, pwm_enable,
  Content, decimal, text, Sysfs, Os, record_write,
}

-- The first digit of a number printed by "%d", which is all that a buffer of two bytes keeps of it.
first_digit : ℕ → ℕ → ℕ
first_digit zero n = n
first_digit (suc fuel) n = let rest = first_digit fuel (n / 10) in if ltb n 10 then n else rest

-- One round for each unit of the number is enough, since every round divides it by ten.
unfoldable pub leading_digit : ℕ → ℕ
unfolding first_digit
leading_digit n = first_digit n n

module _ (os : Os) where
  -- The shape of every writing function here: a failed write returns before the `close`.
  unfoldable pub write_attribute : SysfsFile → Content → Sysfs → ℤ × Sysfs
  unfolding record_write
  write_attribute file c s =
      if os.opens_for_write file
      then (if os.write_succeeds file
          then (success, record_write file c s)
          else (failure, record s { open_files = s.open_files + 1 }))
      else (failure, s)

  unfoldable pub export_channel : ℕ → Sysfs → ℤ × Sysfs
  export_channel channel_num s = write_attribute (pwm_export channel_num) (text "0") s

  unfoldable pub write_period : ℕ → ℕ → Sysfs → ℤ × Sysfs
  write_period channel_num period s = write_attribute (pwm_period channel_num) (decimal period) s

  unfoldable pub write_duty_cycle : ℕ → ℕ → Sysfs → ℤ × Sysfs
  write_duty_cycle channel_num duty_cycle s =
      write_attribute (pwm_duty_cycle channel_num) (decimal duty_cycle) s

  -- `fgets` leaves the local buffer as it was where it delivers nothing: `stack` is what `strtol`
  -- finds in it then.
  unfoldable pub read_duty_cycle : ℕ → (stack : ℤ) → Sysfs → ℤ
  read_duty_cycle channel_num stack s =
      if os.opens_for_read (pwm_duty_cycle channel_num)
      then elim (os.line_number s.written (pwm_duty_cycle channel_num)) [
        | some n ↦ n
        | none ↦ stack
      ]
      else failure

  unfoldable pub write_polarity : ℕ → String → Sysfs → ℤ × Sysfs
  write_polarity channel_num polarity s =
      write_attribute (pwm_polarity channel_num) (text polarity) s

  unfoldable pub write_enable : ℕ → ℕ → Sysfs → ℤ × Sysfs
  write_enable channel_num enable s = write_attribute (pwm_enable channel_num) (decimal enable) s

  unfoldable pub unexport_channel : ℕ → Sysfs → ℤ × Sysfs
  unexport_channel channel_num s =
      write_attribute (pwm_unexport channel_num) (decimal (leading_digit channel_num)) s
