-- ===== src/Io/Light/Laws.antt =====
-- The brightness of a light is read back as it was set.
use vision_box_dual_cam.Base.{ℕ, ◌≡◌, true, some, List, [], ◌∷◌, ◌++◌}
use vision_box_dual_cam.Base.Int.{pos}
use vision_box_dual_cam.Io.Sysfs.{Sysfs, Os, SysfsFile, Content, decimal, pwm_duty_cycle}

-- The duty cycle's file can be written and read, and it reads as the number that was written last.
pub record DutyCycleReads (os : Os) (channel : ℕ) : Type 0 where
  pub opens_to_write : os.opens_for_write (pwm_duty_cycle channel) ≡ true
  pub writes : os.write_succeeds (pwm_duty_cycle channel) ≡ true
  pub opens_to_read : os.opens_for_read (pwm_duty_cycle channel) ≡ true
  pub reads_back :
      (w : List (SysfsFile × Content)) (n : ℕ)
      → os.line_number (w ++ ((pwm_duty_cycle channel, decimal n) ∷ [])) (pwm_duty_cycle channel)
        ≡ some (pos n)
