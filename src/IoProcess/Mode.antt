-- ===== src/IoProcess/Mode.antt =====
-- mainCtl/mainCtl.c: the parts of `ios_process` that turn the requested modes of the LEDs, inputs and outputs
-- into requests, with `ios_dinSetProcess` of iosCtl/iosCtl.c.
use vision_box_dual_cam.Base.{ℕ, ◌==◌, leb, ◌&&◌, String, streq, if◌then◌else◌}
use vision_box_dual_cam.Node.{ProcessNode, glue_inspection}
use vision_box_dual_cam.Io.Led.{led_set_process, user_def1_led, user_def2_led}
use vision_box_dual_cam.Command.{Requests, LedSetMode, DinSetMode, DoutSetMode, DiSetProcess}
use vision_box_dual_cam.IoProcess.Station.{Env, Plant, with_requests}

-- `sprintf` into `ios_setled.outStatus`.
abbrev pub with_status : String → Requests → Requests
with_status s r = record r { setled = record r.setled { out_status = s } }

abbrev pub with_out_pin : ℕ → Requests → Requests
with_out_pin n r = record r { setled = record r.setled { out_pin = n } }

abbrev pub no_delays : Requests → Requests
no_delays r = record r { led_blink_delay = 0; led_off_delay = 0 }

-- The status for one of three colours; another colour leaves it.
unfoldable pub colour_status : (color red green orange : String) → Requests → Requests
colour_status color red green orange r =
    if streq color "Red"
    then with_status red r
    else if streq color "Green"
    then with_status green r
    else if streq color "Orange"
    then with_status orange r
    else r

-- LED_SET_MODE with an `Indication`.
unfoldable pub indicate : LedSetMode → Requests → Requests
unfolding colour_status
indicate m r =
    if streq m.indication "ON"
    then no_delays (colour_status m.color "Red ON" "Green ON" "Orange ON" r)
    else if streq m.indication "OFF"
    then no_delays (with_status "OFF" r)
    else if streq m.indication "Blink"
    then record (colour_status m.color "Red Blinking" "Green Blinking" "Orange Blinking" r) {
      led_blink_delay = 10000;
      led_off_delay = 0;
      led_out_mode = "AI status";
    }
    else r

-- The pin and the mode of the LED that is numbered in the request.
unfoldable pub assign_led : LedSetMode → Requests → Requests
assign_led m r =
    if m.led == 1
    then record (with_out_pin user_def1_led r) {
      nodes = record r.nodes { first = record r.nodes.first { usr_def1_mode = m.led_mode } };
    }
    else if m.led == 2
    then record (with_out_pin user_def2_led r) {
      nodes = record r.nodes { first = record r.nodes.first { usr_def2_mode = m.led_mode } };
    }
    else r

module _ {Chip : Type 0} (env : Env Chip) where
  -- A call of `ios_ledSetProcess(&ios_setled)`.
  unfoldable pub set_led : Plant Chip → Plant Chip
  set_led p = record p { led = (led_set_process env.bus p.requests.setled p.led).1 }

  -- LED_SET_MODE without an `Indication`.
  unfoldable pub enter_mode : LedSetMode → Plant Chip → Plant Chip
  unfolding set_led
  enter_mode m p =
      let r : Requests = p.requests in
      let p1 : Plant Chip =
        if streq m.led_mode "AI status"
        then with_requests (with_status "Red ON" (record r { led_out_mode = "AI status" })) p
        else if streq m.led_mode "Light status"
        then (let off : Plant Chip =
              set_led (with_requests (with_out_pin user_def2_led (with_status "OFF" r)) p) in
            set_led (with_requests (with_out_pin user_def1_led off.requests) off))
        else p in
      with_requests (no_delays p1.requests) p1

  -- The command up to the call of `ios_LED_Status_Handler`.
  unfoldable pub led_set_mode_step : Plant Chip → Plant Chip
  unfolding indicate assign_led enter_mode
  led_set_mode_step p =
      let m : LedSetMode = p.requests.set_led_mode in
      let p1 : Plant Chip =
        if streq m.indication "" then enter_mode m p else with_requests (indicate m p.requests) p in
      with_requests (assign_led m p1.requests) p1

  -- `ios_dinSetProcess`: the pin and the edge for the trigger thread.
  unfoldable pub din_set_process_step : DiSetProcess → Plant Chip → Plant Chip
  din_set_process_step d p =
      let m : DinSetMode = p.requests.set_din_mode in
      if leb 1 d.in_pin && leb d.in_pin 4
      then record p {
        trig_pin = λ i. if i == d.in_pin then m.din_pin else p.trig_pin i;
        trig_edge = λ i.
            if i == d.in_pin
            then (if streq m.din_polarity "High" then "rising" else "falling")
            else p.trig_edge i;
      }
      else p

  -- DIN_SET_MODE: the first test on the camera is always followed by an assignment to both nodes.
  unfoldable pub din_set_mode_step : Plant Chip → Plant Chip
  unfolding din_set_process_step
  din_set_mode_step p =
      let r : Requests = p.requests in
      let d : DiSetProcess = record r.di {
        in_pin = r.set_din_mode.din_pin;
        in_mode = r.set_din_mode.din_polarity;
        in_control_mode = 0;
        out_pin = 0;
        out_mode = "";
        out_control_mode = 0;
        out_delay = 0;
        onoff_setting = 0;
      } in
      let p1 : Plant Chip = din_set_process_step d (with_requests (record r { di = d }) p) in
      if streq r.set_din_mode.select_mode "Glue inspection"
      then with_requests
          (record p1.requests {
            nodes = record {
              first = record r.nodes.first { auto_mode = glue_inspection };
              second = record r.nodes.second { auto_mode = glue_inspection };
            };
          })
          p1
      else p1

-- The output that DOUT_SET_MODE assigns in a node.
unfoldable pub assign_dout : DoutSetMode → ProcessNode → ProcessNode
assign_dout m n =
    if m.out_pin == 1
    then record n { dout1_mode = m.polarity; dout1_select_mode = m.select_mode }
    else if m.out_pin == 2
    then record n { dout2_mode = m.polarity; dout2_select_mode = m.select_mode }
    else if m.out_pin == 3
    then record n { dout3_mode = m.polarity; dout3_select_mode = m.select_mode }
    else if m.out_pin == 4
    then record n { dout4_mode = m.polarity; dout4_select_mode = m.select_mode }
    else n
