-- ===== src/Trigger.antt =====
-- iosCtl/iosCtl.c: `trigCtl`, the thread that waits for edges on the six inputs, debounces them and queues the
-- triggers for the IO process. The branch that `#if 0` leaves out is not modelled.
pub mod Modes
pub mod Window
pub mod Start
mod Tests
use vision_box_dual_cam.Base.{
  ℕ, ◌+◌, ◌-◌, ◌==◌, leb, ltb, ◌&&◌, ◌||◌, not, Bool, true, false, String, codes, streq, to_lower,
  List, [], ◌∷◌, ◌++◌, if◌then◌else◌, zero, suc,
}
use vision_box_dual_cam.Base.Int.{ℤ, pos, negsuc}
use vision_box_dual_cam.Base.Camera.{Camera, camera_1, camera_2}
use vision_box_dual_cam.Io.Sysfs.{Sysfs, Os, gpio_value}
use vision_box_dual_cam.Io.Gpio.{export_line, set_dir, set_edge, get_value}
use vision_box_dual_cam.Queue.Inner.{InnerQueues, ios_en_q}

-- The inputs, the GPIO line of each, and its index in `trig_pin`, `trig_edge` and `fdset`.
pub data Input : Type 0 where
  di1 di2 di3 di4 di_trig1 di_trig2 : Input

unfoldable pub line : Input → ℕ
line di1 = 0
line di2 = 1
line di3 = 7
line di4 = 8
line di_trig1 = 85
line di_trig2 = 86

unfoldable pub index : Input → ℕ
index di1 = 0
index di2 = 1
index di3 = 2
index di4 = 3
index di_trig1 = 4
index di_trig2 = 5

abbrev pub inputs : List Input
inputs = di1 ∷ di2 ∷ di3 ∷ di4 ∷ di_trig1 ∷ di_trig2 ∷ []

-- `job_t`: cleared, or the text of an IO_TRIG_EVENT_SET_RESP.
pub data Job : Type 0 where
  no_job : Job
  trig_event : (din_pin : ℕ) → (din_edge : String) → (din_value : ℕ) → Job

-- What the thread reads and other threads write.
pub record Wires : Type 0 where
  pub trig_pin : ℕ → ℕ
  pub trig_edge : ℕ → String
  pub trig_din_mode : ℕ
  pub trig_din_mode_dual : ℕ

-- What one round of the loop meets. `os_poll` and `os_check` answer the two reads of a level, and the
-- clock counts nanoseconds; at `now_start` it is read after an edge, at `now_end` after that.
pub record Round : Type 0 where
  pub tear_down : Bool
  pub poll_fails : Bool
  pub pollpri : Input → Bool
  pub os_poll : Os
  pub os_check : Os
  pub stack_ch : ℕ  -- `ch` of `gpio_get_value`
  pub now_start : ℕ
  pub now_end : ℕ

-- The thread's variables, and what it writes for others.
pub record Watch : Type 0 where
  pub debounce_counter : ℤ
  pub debounce_pin : ℕ
  pub start : ℕ
  pub job : Job
  pub rvalue : ℕ
  pub trig_edge_old : ℕ → String
  pub opened : ℕ  -- how many elements of `gpio_fd` are descriptors
  pub update_led_status_flg : ℕ
  pub trig_trigger1 : ℕ
  pub trig_trigger2 : ℕ
  pub published : List (Camera × Job)  -- by ext_mqtt_publisher_Dual, oldest first
  pub queues : InnerQueues
  pub sysfs : Sysfs

-- `strncasecmp(s, t, strlen(t)) == 0` on the codes of `s` and `t`, `t` in lower case.
unfoldable pub starts_with : List ℕ → List ℕ → Bool
unfolding to_lower
starts_with s [] = true
starts_with [] (b ∷ t) = false
starts_with (a ∷ s) (b ∷ t) = to_lower a == b && starts_with s t

-- Whether a level is the one after the edge.
unfoldable pub agrees : (edge : String) → (value : ℕ) → Bool
unfolding starts_with
agrees edge value =
    (starts_with (codes edge) (codes "rising") && value == 1)
    || (starts_with (codes edge) (codes "falling") && value == 0)

unfoldable pub incr : ℤ → ℤ
incr (pos n) = pos (suc n)
incr (negsuc zero) = pos 0
incr (negsuc (suc n)) = negsuc n

unfoldable pub decr : ℤ → ℤ
decr (pos zero) = negsuc 0
decr (pos (suc n)) = pos n
decr (negsuc n) = negsuc (suc n)

-- From -2 to 2.
unfoldable pub is_steady : ℤ → Bool
is_steady (pos n) = leb n 2
is_steady (negsuc n) = leb n 1

unfoldable pub open_lines : Os → List Input → ℕ
unfolding line
open_lines os [] = 0
open_lines os (i ∷ is) =
    (if os.opens_for_read (gpio_value (line i)) then 1 else 0) + open_lines os is

module _ (w : Wires) where
  -- From the label TRIG_RESET to the loop.
  unfoldable pub set_up : Os → Watch → Watch
  unfolding line index
  set_up os s =
      let s1 : Sysfs = each inputs (λ i f. (export_line os (line i) f).1) s.sysfs in
      let s2 : Sysfs = each inputs (λ i f. (set_dir os (line i) (out_flag i) f).1) s1 in
      let s3 : Sysfs = each inputs (λ i f. (set_edge os (line i) (w.trig_edge (index i)) f).1) s2 in
      let n : ℕ = open_lines os inputs in
      record s {
        trig_edge_old = w.trig_edge;
        opened = n;
        job = no_job;
        debounce_counter = pos 0;
        debounce_pin = 0;
        sysfs = record s3 { open_files = s3.open_files + n };
      }
    where
      out_flag : Input → ℕ
      out_flag di_trig1 = 1
      out_flag di_trig2 = 1
      out_flag _ = 0

      each : List Input → (Input → Sysfs → Sysfs) → Sysfs → Sysfs
      each [] f s = s
      each (i ∷ is) f s = each is f (f i s)

  unfoldable pub close_lines : Watch → Watch
  close_lines s = record s {
    opened = 0;
    sysfs = record s.sysfs { open_files = s.sysfs.open_files - s.opened };
  }

  -- The edges of the first four inputs are compared with those the lines were set up for.
  unfoldable pub edges_differ : Watch → Bool
  edges_differ s =
      not (streq (s.trig_edge_old 0) (w.trig_edge 0))
      || not (streq (s.trig_edge_old 1) (w.trig_edge 1))
      || not (streq (s.trig_edge_old 2) (w.trig_edge 2))
      || not (streq (s.trig_edge_old 3) (w.trig_edge 3))

  -- An edge that `poll` reports on an input.
  unfoldable pub take_edge : Round → Input → Watch → Watch
  unfolding line index agrees incr decr
  take_edge r i s =
      let v = (get_value r.os_poll (line i) r.stack_ch s.rvalue s.sysfs).1 in
      let s1 = record s {
        debounce_pin = line i;
        rvalue = v;
        job = trig_event (w.trig_pin (index i) + 1) (w.trig_edge (index i)) v;
      } in
      if agrees (w.trig_edge (index i)) v
      then record s1 { start = r.now_start; debounce_counter = incr s.debounce_counter }
      else record s1 { debounce_counter = decr s.debounce_counter }

  -- The first input of the list with an edge, the others wait for the next round.
  unfoldable pub take_edges : Round → List Input → Watch → Watch
  unfolding take_edge
  take_edges r [] s = s
  take_edges r (i ∷ is) s = if r.pollpri i then take_edge r i s else take_edges r is s

  -- The second look at an input: its index, and the input whose level is read.
  unfoldable pub confirm : Round → (edge_of level_of : Input) → Watch → Bool × Watch
  unfolding line index agrees
  confirm r i j s =
      let v = (get_value r.os_check (line j) r.stack_ch s.rvalue s.sysfs).1 in
      (agrees (w.trig_edge (index i)) v, record s { rvalue = v })

  unfoldable pub confirm_pin : Round → Watch → Bool × Watch
  unfolding confirm line
  confirm_pin r s =
      if s.debounce_pin == line di1
      then confirm r di1 di1 s
      else if s.debounce_pin == line di2
      then confirm r di2 di2 s
      else if s.debounce_pin == line di3
      then confirm r di3 di3 s
      else if s.debounce_pin == line di4
      then confirm r di4 di4 s
      else if s.debounce_pin == line di_trig1
      then confirm r di_trig1 di_trig1 s
      else if s.debounce_pin == line di_trig2
      then confirm r di_trig2 di_trig1 s
      else (false, s)

  -- The value of `doTrigger` and the state.
  unfoldable pub debounce : Round → Watch → Bool × Watch
  unfolding confirm_pin is_steady
  debounce r s =
      let d = r.now_end - s.start in
      if ltb d 50000000
      then (false, s)
      else if leb 51000000 d && leb d 52000000 && is_steady s.debounce_counter
      then confirm_pin r s
      else if leb 1000000000 d
      then (false, record s { debounce_counter = pos 0 })
      else (false, s)

  -- A trigger for camera 1, and one for camera 2.
  unfoldable pub tell_first : Watch → Watch
  tell_first s =
      if w.trig_din_mode == 1
      then record s {
        trig_trigger1 = 1;
        published = s.published ++ ((camera_1, s.job) ∷ []);
        queues = (ios_en_q "Din_Trigger" s.queues).1;
      }
      else s

  unfoldable pub tell_second : Watch → Watch
  tell_second s =
      if w.trig_din_mode_dual == 1
      then record s {
        trig_trigger2 = 1;
        published = s.published ++ ((camera_2, s.job) ∷ []);
        queues = (ios_en_q "Din_Trigger_Dual" s.queues).1;
      }
      else s

  unfoldable pub do_trigger : Watch → Watch
  unfolding tell_first tell_second
  do_trigger s =
      tell_second (tell_first (record s { debounce_counter = pos 0; update_led_status_flg = 1 }))

  -- A round of the loop, and whether the loop goes on. The thread closes its descriptors where it ends.
  unfoldable pub trig_round : Round → Watch → Bool × Watch
  unfolding edges_differ set_up close_lines take_edges debounce do_trigger
  trig_round r s =
      if r.tear_down
      then (false, close_lines s)
      else if edges_differ s
      then (true, set_up r.os_poll (close_lines s))
      else if r.poll_fails
      then (false, close_lines s)
      else (let (b, s1) = debounce r (take_edges r inputs s) in
          (true, if b then do_trigger s1 else s1))

-- The loop, over what its rounds meet.
unfoldable pub trig_run : List (Wires × Round) → Watch → Watch
unfolding trig_round
trig_run [] s = s
trig_run ((w, r) ∷ rs) s =
    let (b, s1) = trig_round w r s in let rest = trig_run rs s1 in if b then rest else s1
