-- ===== src/Io/Gpio.antt =====
-- iosCtl/gpio.c: one function per attribute of a GPIO line. Each returns its `int` and the new state.
use vision_box_dual_cam.Base.{ℕ, none, some, String, ◌==◌, if◌then◌else◌}
use vision_box_dual_cam.Base.Int.{ℤ, success, failure}
use vision_box_dual_cam.Io.Sysfs.{
  SysfsFile, gpio_export, gpio_unexport, gpio_direction, gpio_value, gpio_edge, Content, decimal,
  text, Sysfs, Os, record_write,
}

module _ (os : Os) where
  -- The shape of every writing function here: open, write once without a look at the result, close.
  unfoldable pub write_attribute : SysfsFile → Content → Sysfs → ℤ × Sysfs
  unfolding record_write
  write_attribute file c s =
      if os.opens_for_write file
      then (success, if os.write_succeeds file then record_write file c s else s)
      else (failure, s)

  unfoldable pub export_line : ℕ → Sysfs → ℤ × Sysfs
  export_line gpio s = write_attribute gpio_export (decimal gpio) s

  unfoldable pub unexport_line : ℕ → Sysfs → ℤ × Sysfs
  unexport_line gpio s = write_attribute gpio_unexport (decimal gpio) s

  unfoldable pub set_dir : ℕ → ℕ → Sysfs → ℤ × Sysfs
  set_dir gpio out_flag s =
      write_attribute (gpio_direction gpio) (if out_flag == 0 then text "in" else text "out") s

  unfoldable pub set_value : ℕ → ℕ → Sysfs → ℤ × Sysfs
  set_value gpio value s =
      write_attribute (gpio_value gpio) (if value == 0 then text "0" else text "1") s

  unfoldable pub set_edge : ℕ → String → Sysfs → ℤ × Sysfs
  set_edge gpio edge s = write_attribute (gpio_edge gpio) (text edge) s

  -- `read` leaves the local `ch` as it was, `stack`, where it delivers nothing. `value` is what the
  -- pointer argument points at.
  unfoldable pub get_value : ℕ → (stack value : ℕ) → Sysfs → ℤ × ℕ
  get_value gpio stack value s =
      if os.opens_for_read (gpio_value gpio)
      then (
        success,
        elim (os.first_byte s.written (gpio_value gpio)) [
          | some ch ↦ if ch == b'0' then 0 else 1
          | none ↦ if stack == b'0' then 0 else 1
        ],
      )
      else (failure, value)
