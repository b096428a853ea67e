-- ===== src/Io/Sysfs.antt =====
-- The part of the operating system that the IO functions use: files under /sys/class, which are
-- opened, written or read once, and closed.
use vision_box_dual_cam.Base.{ℕ, Bool, Option, List, [], ◌∷◌, ◌++◌, String}
use vision_box_dual_cam.Base.Int.{ℤ}

-- The files that the program names by `snprintf`, with the number that goes into the name.
pub data SysfsFile : Type 0 where
  gpio_export gpio_unexport : SysfsFile
  gpio_direction gpio_value gpio_edge : ℕ → SysfsFile
  pwm_export pwm_unexport pwm_period pwm_duty_cycle pwm_polarity pwm_enable : ℕ → SysfsFile

-- What a `write` puts there: a number printed by "%d", or a text with its final NUL.
pub data Content : Type 0 where
  decimal : ℕ → Content
  text : String → Content

-- What was written so far, oldest first, and how many files the process holds open.
pub record Sysfs : Type 0 where
  pub written : List (SysfsFile × Content)
  pub open_files : ℕ

abbrev pub untouched : Sysfs
untouched = record { written = []; open_files = 0 }

-- What the kernel answers. Reading depends on what was written before.
pub record Os : Type 0 where
  pub opens_for_write : SysfsFile → Bool
  pub write_succeeds : SysfsFile → Bool
  pub opens_for_read : SysfsFile → Bool
  -- the first byte of the file, if `read` delivers one
  pub first_byte : List (SysfsFile × Content) → SysfsFile → Option ℕ
  -- the number that `strtol` finds in the first line, if `fgets` delivers one
  pub line_number : List (SysfsFile × Content) → SysfsFile → Option ℤ

unfoldable pub record_write : SysfsFile → Content → Sysfs → Sysfs
record_write file c s = record s { written = s.written ++ ((file, c) ∷ []) }
