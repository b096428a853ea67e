-- ===== src/Io/Dout/Laws.antt =====
-- What the two output handlers do with a node's assignments.
use vision_box_dual_cam.Base.{
  ℕ, ◌+◌, ◌≤◌, ◌≡◌, ◌≢◌, Bool, true, false, ◌||◌, String, streq, strcaseeq, if◌then◌else◌, ◌==◌,
  arith, [], ◌∷◌, ◌++◌,
}
use vision_box_dual_cam.Base.Int.{failure, pos}
use vision_box_dual_cam.Base.Camera.{Camera, Dual, at}
use vision_box_dual_cam.Io.Sysfs.{Os, gpio_value, Content, text, record_write}
use vision_box_dual_cam.Io.Gpio.{set_value, write_attribute}
use vision_box_dual_cam.Io.Dout.{
  Dout, DoutSetProcess, drive, dout_set_process, set_if, request, control_dout_handler,
  control_dout_handler_dual, first_assigned,
}
use vision_box_dual_cam.Node.{ProcessNode}

-- Some output of the node is assigned to the event.
abbrev pub assigned : ProcessNode → String → Bool
assigned n event =
    streq n.dout1_select_mode event
    || streq n.dout2_select_mode event
    || streq n.dout3_select_mode event
    || streq n.dout4_select_mode event

abbrev pub count : Bool → ℕ
count true = 1
count false = 0

-- How many outputs are.
abbrev pub outputs : ProcessNode → String → ℕ
outputs n event =
    count (streq n.dout1_select_mode event)
    + count (streq n.dout2_select_mode event)
    + count (streq n.dout3_select_mode event)
    + count (streq n.dout4_select_mode event)

module _ (os : Os) where
  -- The handler of the two cameras returns 1 exactly if an output of the camera's node is assigned to
  -- the event, whether or not the operating system let it set the output; else it returns -1.
  pub control_dout_dual-assigned :
      (nodes : Dual ProcessNode) (event : String) (enable : ℕ) (c : Camera) (stack : ℕ) (d : Dout)
      → (control_dout_handler_dual os nodes event enable c stack d).0
        ≡ (if assigned (at c nodes) event then pos 1 else failure)
  unfolding control_dout_handler_dual first_assigned
  control_dout_dual-assigned nodes event enable c stack d = ground arith

  -- For a node with at most one output for the event, the handler for the two cameras and the handler for
  -- the single camera return the same and do the same; only with two or more they differ.
  control_dout_dual-agrees :
      (nodes : Dual ProcessNode) (event : String) (enable : ℕ) (c : Camera) (stack : ℕ) (d : Dout)
      → outputs (at c nodes) event ≤ 1
      → control_dout_handler_dual os nodes event enable c stack d
        ≡ control_dout_handler os (at c nodes) event enable stack d
  unfolding control_dout_handler_dual first_assigned control_dout_handler set_if
  control_dout_dual-agrees nodes event enable c stack d h = ground arith

  -- An output whose mode is "High" is not switched off: for each of the pins, a request to switch it off does to
  -- the lines and the periods what the request to switch it on does.
  dout_set_process-High :
      (pin stack : ℕ) (mode : String) (d : Dout)
      → strcaseeq mode "High" ≡ true
      → dout_set_process os (request os pin mode 0 stack) d
        ≡ dout_set_process os (request os pin mode 1 stack) d
  unfolding dout_set_process request drive
  dout_set_process-High pin stack mode d h = ground arith

  -- The level that a request puts on the line.
  abbrev pub level : DoutSetProcess → Content
  level p = if strcaseeq p.out_mode "High" || p.onoff_setting == 1 then text "1" else text "0"

  -- A request for one of the four outputs writes the level into the output's own GPIO line, 9, 10, 11 or 13,
  -- and into nothing else, if the kernel takes it.
  dout_set_process-written :
      (p : DoutSetProcess) (d : Dout) (line : ℕ)
      → (if p.out_pin == 1
          then 9
          else if p.out_pin == 2
          then 10
          else if p.out_pin == 3
          then 11
          else if p.out_pin == 4
          then 13
          else 0)
        ≡ line
      → line ≢ 0
      → os.opens_for_write (gpio_value line) ≡ true
      → os.write_succeeds (gpio_value line) ≡ true
      → (dout_set_process os p d).1.sysfs.written
        ≡ d.sysfs.written ++ ((gpio_value line, level p) ∷ [])
  unfolding dout_set_process drive set_value write_attribute record_write
  dout_set_process-written p d line h k o w = ground arith
