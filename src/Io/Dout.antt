-- ===== src/Io/Dout.antt =====
-- iosCtl/iosCtl.c: the digital outputs, and the handlers that drive the output a node has assigned
-- to an event ("Result", "AutoDone").
pub mod Laws
use vision_box_dual_cam.Base.{
  ℕ, Bool, true, false, ◌||◌, ◌&&◌, String, ◌==◌, leb, ltb, if◌then◌else◌, streq, strcaseeq,
}
use vision_box_dual_cam.Base.Int.{ℤ, success, failure, pos}
use vision_box_dual_cam.Base.Camera.{Camera, Dual, at}
use vision_box_dual_cam.Io.Sysfs.{Sysfs, Os}
use vision_box_dual_cam.Io.Gpio.{set_value}
use vision_box_dual_cam.Node.{ProcessNode}

-- The outputs' GPIO lines and the remaining one-shot periods, `iosDO1_blink_time` and so on.
pub record Dout : Type 0 where
  pub sysfs : Sysfs
  pub do1_blink_time : ℕ
  pub do2_blink_time : ℕ
  pub do3_blink_time : ℕ
  pub do4_blink_time : ℕ

-- `IOS_DOUT_SET_PROCESS`, but for `SelectMode`, which no function here reads.
pub record DoutSetProcess : Type 0 where
  pub out_pin : ℕ
  pub out_mode : String
  pub onoff_setting : ℕ
  pub one_shot_period : ℕ

abbrev pub do1_vb : ℕ
do1_vb = 9

abbrev pub do2_vb : ℕ
do2_vb = 10

abbrev pub do3_vb : ℕ
do3_vb = 11

abbrev pub do4_vb : ℕ
do4_vb = 13

-- `OUT_PIN_MAX` of the enum `OUT_PIN`, which begins at 1.
abbrev pub out_pin_max : ℕ
out_pin_max = 9

module _ (os : Os) where
  -- The level that the request asks for, put on the line. The result of the GPIO call is dropped.
  unfoldable pub drive : ℕ → DoutSetProcess → Sysfs → Sysfs
  drive line p s =
      if strcaseeq p.out_mode "High" || p.onoff_setting == 1
      then (set_value os line 1 s).1
      else (set_value os line 0 s).1

  -- `ios_doutSetProcess`, called with a pointer that is not null.
  unfoldable pub dout_set_process : DoutSetProcess → Dout → ℤ × Dout
  unfolding drive
  dout_set_process p d =
      if ltb p.out_pin out_pin_max && leb 1 p.out_pin
      then (
        success,
        if p.out_pin == 1
            then record d { sysfs = drive do1_vb p d.sysfs; do1_blink_time = p.one_shot_period }
            else if p.out_pin == 2
            then record d { sysfs = drive do2_vb p d.sysfs; do2_blink_time = p.one_shot_period }
            else if p.out_pin == 3
            then record d { sysfs = drive do3_vb p d.sysfs; do3_blink_time = p.one_shot_period }
            else if p.out_pin == 4
            then record d { sysfs = drive do4_vb p d.sysfs; do4_blink_time = p.one_shot_period }
            else d,
      )
      else (success, d)

  -- The request that the handlers build on their stack. They do not set the period: `stack` is what
  -- the stack holds there.
  unfoldable pub request : ℕ → String → ℕ → (stack : ℕ) → DoutSetProcess
  request pin mode enable stack = record {
    out_pin = pin;
    out_mode = mode;
    onoff_setting = enable;
    one_shot_period = stack;
  }

  -- One `if` of the handlers: where the pin is assigned to the event, it is set, and the result is 1.
  unfoldable pub set_if : Bool → ℕ → String → ℕ → (stack : ℕ) → ℤ × Dout → ℤ × Dout
  unfolding request dout_set_process
  set_if assigned pin mode enable stack (ret, d) =
      if assigned then (pos 1, (dout_set_process (request pin mode enable stack) d).1) else (ret, d)

  -- `ios_Control_Dout_Handler`: every output of the node that is assigned to the event.
  unfoldable pub control_dout_handler : ProcessNode → String → ℕ → (stack : ℕ) → Dout → ℤ × Dout
  unfolding set_if
  control_dout_handler n selectmode enable stack d =
      set_if (streq n.dout4_select_mode selectmode) 4 n.dout4_mode enable stack (
        set_if (streq n.dout3_select_mode selectmode) 3 n.dout3_mode enable stack (
          set_if (streq n.dout2_select_mode selectmode) 2 n.dout2_mode enable stack (
            set_if (streq n.dout1_select_mode selectmode) 1 n.dout1_mode enable stack
              (failure, d))))

  -- The `if ... else if` of `ios_Control_Dout_Handler_Dual` over one node.
  unfoldable pub first_assigned : ProcessNode → String → ℕ → (stack : ℕ) → Dout → ℤ × Dout
  unfolding request dout_set_process
  first_assigned n selectmode enable stack d =
      if streq n.dout1_select_mode selectmode
      then (pos 1, (dout_set_process (request 1 n.dout1_mode enable stack) d).1)
      else if streq n.dout2_select_mode selectmode
      then (pos 1, (dout_set_process (request 2 n.dout2_mode enable stack) d).1)
      else if streq n.dout3_select_mode selectmode
      then (pos 1, (dout_set_process (request 3 n.dout3_mode enable stack) d).1)
      else if streq n.dout4_select_mode selectmode
      then (pos 1, (dout_set_process (request 4 n.dout4_mode enable stack) d).1)
      else (failure, d)

  -- `ios_Control_Dout_Handler_Dual`: the first output of the camera's node that is assigned to the
  -- event, and no other.
  unfoldable pub control_dout_handler_dual :
      Dual ProcessNode → String → ℕ → Camera → (stack : ℕ) → Dout → ℤ × Dout
  unfolding first_assigned
  control_dout_handler_dual nodes selectmode enable camera_id stack d =
      first_assigned (at camera_id nodes) selectmode enable stack d
