-- ===== src/Io/Files.antt =====
-- The files that the functions of iosCtl/gpio.c and iosCtl/pwm.c leave open.
use vision_box_dual_cam.Base.{ℕ, ◌+◌, ◌≡◌, not, ◌&&◌, String, if◌then◌else◌, arith}
use vision_box_dual_cam.Io.Sysfs.{
  Sysfs, Os, SysfsFile, pwm_export, pwm_unexport, pwm_period, pwm_duty_cycle, pwm_polarity,
  pwm_enable, record_write,
}
use vision_box_dual_cam.Io.Gpio
use vision_box_dual_cam.Io.Pwm

-- One file where a call opened it and then failed to write.
abbrev pub lost : Os → SysfsFile → ℕ
lost os file = if os.opens_for_write file && not (os.write_succeeds file) then 1 else 0

-- No GPIO function leaves a file open, whatever the kernel answers.
gpio-open_files :
    (os : Os) (gpio n : ℕ) (edge : String) (s : Sysfs)
    → ((Gpio.export_line os gpio s).1.open_files ≡ s.open_files)
      × ((Gpio.unexport_line os gpio s).1.open_files ≡ s.open_files)
      × ((Gpio.set_dir os gpio n s).1.open_files ≡ s.open_files)
      × ((Gpio.set_value os gpio n s).1.open_files ≡ s.open_files)
      × ((Gpio.set_edge os gpio edge s).1.open_files ≡ s.open_files)
unfolding Gpio.export_line Gpio.unexport_line Gpio.set_dir Gpio.set_value Gpio.set_edge
    Gpio.write_attribute record_write
gpio-open_files os gpio n edge s = ground arith

-- Each PWM function leaves one more file open exactly if it opens its file and the write fails: those are the
-- calls that return before the `close`.
pwm-open_files :
    (os : Os) (c n : ℕ) (polarity : String) (s : Sysfs)
    → ((Pwm.export_channel os c s).1.open_files ≡ s.open_files + lost os (pwm_export c))
      × ((Pwm.write_period os c n s).1.open_files ≡ s.open_files + lost os (pwm_period c))
      × ((Pwm.write_duty_cycle os c n s).1.open_files ≡ s.open_files + lost os (pwm_duty_cycle c))
      × ((Pwm.write_polarity os c polarity s).1.open_files
          ≡ s.open_files + lost os (pwm_polarity c))
      × ((Pwm.write_enable os c n s).1.open_files ≡ s.open_files + lost os (pwm_enable c))
      × ((Pwm.unexport_channel os c s).1.open_files ≡ s.open_files + lost os (pwm_unexport c))
unfolding Pwm.export_channel Pwm.write_period Pwm.write_duty_cycle Pwm.write_polarity
    Pwm.write_enable Pwm.unexport_channel Pwm.write_attribute record_write
pwm-open_files os c n polarity s = ground arith
