-- ===== src/Trigger/Tests.antt =====
-- Runs of `trigCtl` on concrete inputs.
use vision_box_dual_cam.Base.{
  arith, streq, ℕ, ◌≡◌, ◌≢◌, refl, Bool, true, false, some, none, List, [], ◌∷◌,
}
use vision_box_dual_cam.Base.Int.{pos}
use vision_box_dual_cam.Base.Camera.{camera_1}
use vision_box_dual_cam.Io.Sysfs.{Os, untouched}
use vision_box_dual_cam.Io.Gpio.{get_value}
use vision_box_dual_cam.Queue.Deque
use vision_box_dual_cam.Queue.Inner.{no_messages}
use vision_box_dual_cam.Trigger.{
  Input, di2, Wires, Round, Watch, no_job, trig_event, agrees, trig_round, trig_run, set_up,
  do_trigger,
}
use vision_box_dual_cam.Trigger.Modes.{trig_run-AsksElsewhere}
use vision_box_dual_cam.Trigger.Start.{set_up-unprompted}

-- Every line is high.
abbrev high : Os
high = record {
  opens_for_write = λ f. true;
  write_succeeds = λ f. true;
  opens_for_read = λ f. true;
  first_byte = λ l f. some b'1';
  line_number = λ l f. none;
}

-- Both cameras ask for the same input, and every edge is "rising".
abbrev asking : ℕ → Wires
asking n = record {
  trig_pin = λ i. 1;
  trig_edge = λ i. "rising";
  trig_din_mode = n;
  trig_din_mode_dual = 2;
}

abbrev no_edge : Input → Bool
no_edge i = false

abbrev second_input : Input → Bool
second_input di2 = true
second_input _ = false

abbrev at_time : (Input → Bool) → ℕ → Round
at_time edges now = record {
  tear_down = false;
  poll_fails = false;
  pollpri = edges;
  os_poll = high;
  os_check = high;
  stack_ch = 0;
  now_start = now;
  now_end = now;
}

abbrev idle_watch : Watch
idle_watch = record {
  debounce_counter = pos 0;
  debounce_pin = 0;
  start = 0;
  job = no_job;
  rvalue = 0;
  trig_edge_old = λ i. "rising";
  opened = 6;
  update_led_status_flg = 0;
  trig_trigger1 = 0;
  trig_trigger2 = 0;
  published = [];
  queues = no_messages;
  sysfs = record untouched { open_files = 6 };
}

-- After an edge of the second input at 3 ms.
abbrev bounced : Watch
bounced = (trig_round (asking 1) (at_time second_input 3000000) idle_watch).1

served_late :
    (trig_run
      ((asking 1, at_time second_input 3000000) ∷ (asking 1, at_time no_edge 54500000) ∷ [])
      idle_watch).published
    ≡ (camera_1, trig_event 2 "rising" 1) ∷ []
unfolding trig_run streq get_value
served_late = refl

too_early : (trig_round (asking 1) (at_time no_edge 53500000) bounced).1.published ≡ []
unfolding trig_round streq get_value
too_early = refl

missed : (trig_round (asking 1) (at_time no_edge 55500000) bounced).1.published ≡ []
unfolding trig_round streq get_value
missed = refl

-- Both cameras wait for input 2, and input 2 rises.
abbrev second_rises : List (Wires × Round)
second_rises = (asking 2, at_time second_input 3000000) ∷ (asking 2, at_time no_edge 54500000) ∷ []

trig_run-AsksElsewhere_example :
    ((trig_run second_rises idle_watch).queues ≡ no_messages)
    × ((trig_run second_rises idle_watch).published ≡ [])
trig_run-AsksElsewhere_example =
    trig_run-AsksElsewhere second_rises idle_watch ((two, two), ((two, two), tt))
  where
    two : (asking 2).trig_din_mode ≢ 1
    two e = ground arith

set_up-unprompted_example :
    trig_round (asking 1) (at_time no_edge 51500000) (set_up (asking 1) high idle_watch)
    ≡ (true, do_trigger (asking 1) (record (set_up (asking 1) high idle_watch) { rvalue = 1 }))
unfolding agrees get_value set_up
set_up-unprompted_example =
    set_up-unprompted (asking 1) (at_time no_edge 51500000) high idle_watch refl refl (λ i. refl)
      (omega arith) (omega arith) rises
  where
    rises :
        agrees "rising" (get_value high 0 0 0 (set_up (asking 1) high idle_watch).sysfs).1 ≡ true
    rises = refl
