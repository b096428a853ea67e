-- ===== src/IoProcess/Ranges/Modes.antt =====
-- The branches of `ios_process` that set modes.
use vision_box_dual_cam.Command.Bounds.Parts.{part_1}
use vision_box_dual_cam.Base.{leb, ◌&&◌, streq, Option, none, some, arith}
use vision_box_dual_cam.Base.Camera.{Camera, camera_1, camera_2, at, put_at}
use vision_box_dual_cam.Node.{glue_inspection}
use vision_box_dual_cam.Io.Led.{user_def1_led, user_def2_led}
use vision_box_dual_cam.Command.{Requests, IoCmd, LedSetMode}
use vision_box_dual_cam.Command.Bounds.{InRange}
use vision_box_dual_cam.Command.Bounds.Nodes.{BothInRange}
use vision_box_dual_cam.IoProcess.Station.{Env, Plant, with_requests, mqtt_publisher_dual}
use vision_box_dual_cam.IoProcess.Mode.{
  with_status, with_out_pin, no_delays, indicate, assign_led, set_led, enter_mode,
  led_set_mode_step, din_set_process_step, din_set_mode_step, assign_dout,
}
use vision_box_dual_cam.IoProcess.Handle.{answer, led_set_mode_handle, dout_set_mode_step}
use vision_box_dual_cam.Command.{DiSetProcess}
use vision_box_dual_cam.Io.Status.{Lamps, led_status_handler}
use vision_box_dual_cam.IoProcess.Station.{lamps, with_lamps, camera_of}
use vision_box_dual_cam.IoProcess.Handle.{ack}
use vision_box_dual_cam.Base.{either}
use vision_box_dual_cam.IoProcess.Bounds.{
  with_nodes, status-InRange, out_pin-InRange, out_mode-InRange, delays-InRange, indicate-InRange,
  assign_led-InRange, assign_dout-InRange,
}
use vision_box_dual_cam.IoProcess.Bounds.{PlantInRange, Leaves}

module _ {Chip : Type 0} (env : Env Chip) where
  enter_mode-InRange :
      (m : LedSetMode) (p : Plant Chip) → PlantInRange p → PlantInRange (enter_mode env m p)
  unfolding enter_mode set_led
  enter_mode-InRange m p h =
      either (λ (x : Plant Chip). PlantInRange (with_requests (no_delays x.requests) x))
        (streq m.led_mode "AI status") _ _
        (
          delays-InRange 0 0
              (with_status "Red ON" (record p.requests { led_out_mode = "AI status" }))
              (omega arith) (omega arith)
              (status-InRange "Red ON" (record p.requests { led_out_mode = "AI status" })
                (omega arith) (out_mode-InRange "AI status" p.requests (omega arith) h.0)),
          h.1,
        )
        (either (λ (x : Plant Chip). PlantInRange (with_requests (no_delays x.requests) x))
          (streq m.led_mode "Light status") _ _
          (
            delays-InRange 0 0
                (with_out_pin user_def1_led
                  (with_out_pin user_def2_led (with_status "OFF" p.requests)))
                (omega arith) (omega arith)
                (out_pin-InRange user_def1_led
                  (with_out_pin user_def2_led (with_status "OFF" p.requests)) (omega arith)
                  (out_pin-InRange user_def2_led (with_status "OFF" p.requests) (omega arith)
                    (status-InRange "OFF" p.requests (omega arith) h.0))),
            h.1,
          )
          (delays-InRange 0 0 p.requests (omega arith) (omega arith) h.0, h.1))

  led_set_mode-InRange : (p : Plant Chip) → PlantInRange p → PlantInRange (led_set_mode_step env p)
  unfolding led_set_mode_step
  led_set_mode-InRange p h =
      let m : LedSetMode = p.requests.set_led_mode in
      let entered = enter_mode-InRange m p h in
      either (λ (x : Plant Chip). PlantInRange (with_requests (assign_led m x.requests) x))
        (streq m.indication "") _ _
        (assign_led-InRange m (enter_mode env m p).requests h.0.4 entered.0, entered.1)
        (
          assign_led-InRange m (indicate m p.requests) h.0.4 (indicate-InRange m p.requests h.0),
          h.1,
        )

  pub led_set_mode_handle-InRange :
      (p : Plant Chip) → PlantInRange p → Leaves (led_set_mode_handle env p)
  unfolding led_set_mode_handle answer mqtt_publisher_dual
  led_set_mode_handle-InRange p h = shown (
      led_status_handler env.bus env.os env.stack_read env.stack_ret env.stack_value env.stack_ch
        env.iwconfig (led_set_mode_step env p).requests.nodes (lamps (led_set_mode_step env p)))
    where
      shown :
          (o : Option (Lamps Chip))
          → Leaves (elim o as (λ _. Option (Plant Chip)) [
            | some l ↦ some (
                answer
                  (ack IoCmd.led_set_mode (led_set_mode_step env p).requests)
                  (with_lamps l (led_set_mode_step env p)))
            | none ↦ none
          ])
      shown none = tt
      shown (some l) = led_set_mode-InRange p h

  din_set-InRange :
      (d : DiSetProcess) (p : Plant Chip)
      → PlantInRange p
      → PlantInRange (din_set_process_step env d p)
  unfolding din_set_process_step
  din_set-InRange d p h = either PlantInRange (leb 1 d.in_pin && leb d.in_pin 4) _ _ h h

  pub din_set_mode-InRange :
      (p : Plant Chip) → PlantInRange p → PlantInRange (din_set_mode_step env p)
  unfolding din_set_mode_step
  din_set_mode-InRange p h =
      let r : Requests = p.requests in
      let d : DiSetProcess = record r.di {
        in_pin = r.set_din_mode.din_pin;
        in_mode = r.set_din_mode.din_polarity;
        in_control_mode = 0;
        out_pin = 0;
        out_mode = "";
        out_control_mode = 0;
        out_delay = 0;
        onoff_setting = 0;
      } in
      let asked : Plant Chip = with_requests (record r { di = d }) p in
      let filled : PlantInRange asked = (
        (part_1 h.0 (
          h.0.5.0,
          omega (arith, h.0.5.1),
          omega arith,
          h.0.1.3,
          omega arith,
          omega arith,
          omega arith,
          omega arith,
          omega arith,
        )),
        h.1,
      ) in
      let set = din_set-InRange d asked filled in
      either PlantInRange (streq r.set_din_mode.select_mode "Glue inspection") _ _
        (
          with_nodes (din_set_process_step env d asked).requests
              (record {
                first = record r.nodes.first { auto_mode = glue_inspection };
                second = record r.nodes.second { auto_mode = glue_inspection };
              })
              set.0 (h.0.10, h.0.11),
          set.1,
        )
        set

  put-InRange :
      (id : Camera) (r : Requests)
      → InRange r
      → BothInRange (put_at id (assign_dout r.dout_mode (at id r.nodes)) r.nodes)
  put-InRange camera_1 r h = (assign_dout-InRange r.dout_mode r.nodes.first h.6 h.10, h.11)
  put-InRange camera_2 r h = (h.10, assign_dout-InRange r.dout_mode r.nodes.second h.6 h.11)

  pub dout_set_mode-InRange :
      (p : Plant Chip) → PlantInRange p → PlantInRange (dout_set_mode_step env p)
  unfolding dout_set_mode_step mqtt_publisher_dual
  dout_set_mode-InRange p h =
      let r : Requests = p.requests in
      let id : Camera = camera_of r.dout_mode.camera_id in
      (
        with_nodes r (put_at id (assign_dout r.dout_mode (at id r.nodes)) r.nodes) h.0
            (put-InRange id r h.0),
        h.1,
      )
