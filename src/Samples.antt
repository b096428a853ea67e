-- ===== src/Samples.antt =====
-- Concrete data for the tests: an operating system that does what it is asked, parsers, and a state with two
-- active nodes.
use vision_box_dual_cam.Base.{ℕ, ◌≡◌, refl, List, [], ◌∷◌, ◌++◌, Option, none, some, String, true}
use vision_box_dual_cam.Base.Int.{ℤ, pos}
use vision_box_dual_cam.Node.{ProcessNode, idle_node, glue_inspection, GiFlow}
use vision_box_dual_cam.Queue.Inner.{no_messages}
use vision_box_dual_cam.Queue.Algo.{no_mode, no_tasks}
use vision_box_dual_cam.Algo.Names.{enum_subscribe_cam_reg}
use vision_box_dual_cam.Algo.HashMap.{create_hash_map}
use vision_box_dual_cam.Algo.Assign.{Args, Commands, Algo}
use vision_box_dual_cam.Threads.{initial}
use vision_box_dual_cam.Io.Sysfs.{SysfsFile, Content, decimal, text, Os, untouched}
use vision_box_dual_cam.Io.Dout.{Dout}
use vision_box_dual_cam.Flow.State.{Box}

-- The number that was written last, whatever the file.
abbrev pub last_number : Option ℤ → List (SysfsFile × Content) → Option ℤ
last_number n [] = n
last_number n ((f, decimal v) ∷ w) = last_number (some (pos v)) w
last_number n ((f, text s) ∷ w) = last_number n w

pub last_number-append :
    (f : SysfsFile) (v : ℕ) (n : Option ℤ) (w : List (SysfsFile × Content))
    → last_number n (w ++ ((f, decimal v) ∷ [])) ≡ some (pos v)
last_number-append f v n [] = refl
last_number-append f v n ((g, decimal u) ∷ w) = last_number-append f v (some (pos u)) w
last_number-append f v n ((g, text s) ∷ w) = last_number-append f v n w

abbrev pub sample_os : Os
sample_os = record {
  opens_for_write = λ f. true;
  write_succeeds = λ f. true;
  opens_for_read = λ f. true;
  first_byte = λ w f. some b'1';
  line_number = λ w f. last_number none w;
}

-- Every parser succeeds, keeps the text, and notes its length nowhere.
abbrev pub sample_commands : Commands String
sample_commands = record { parse = λ i j args. (pos 0, args, j); convert = λ i args p. p }

abbrev pub sample_args : Args
sample_args = record {
  flg_auto_running = 0;
  flg_enable_trigger_mode = 0;
  flg_trigger_mode_activate = 0;
  raw = λ i. [];
}

abbrev pub sample_algo : Algo
sample_algo = record {
  queues = no_tasks;
  hash_param = create_hash_map enum_subscribe_cam_reg [];
  hash_method = create_hash_map enum_subscribe_cam_reg [];
  args = sample_args;
  param_json = λ i. "";
  method_json = λ i. "";
  ex_mode = no_mode;
}

abbrev pub sample_dout : Dout
sample_dout = record {
  sysfs = untouched;
  do1_blink_time = 0;
  do2_blink_time = 0;
  do3_blink_time = 0;
  do4_blink_time = 0;
}

-- An active node with an output for each event.
abbrev pub sample_node : GiFlow → ProcessNode
sample_node f = record idle_node {
  active = 1;
  auto_mode = glue_inspection;
  gi_flow = f;
  test_result = "PASS";
  dout1_select_mode = "AutoDone";
  dout2_select_mode = "Result";
}

-- Both nodes in one state, messages in the IO queue, and the wake flag of both cameras.
abbrev pub sample_box : GiFlow → List String → ℕ → Box
sample_box f messages wake = record {
  nodes = record { first = sample_node f; second = sample_node f };
  inner = record no_messages { ios = messages };
  algo = sample_algo;
  threads = initial;
  dout = sample_dout;
  wake_ips_flag = record { first = wake; second = wake };
  published = [];
  shown = record { pre_state = 254; counter = 0 };
}
