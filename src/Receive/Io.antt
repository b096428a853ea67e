-- ===== src/Receive/Io.antt =====
-- A command of the IO process: where a message puts it, and whom the next round of the main loop wakes.
use vision_box_dual_cam.Base.{
  ◌≡◌, refl, ap, ◌∙◌, false, String, streq, List, [], ◌∷◌, ◌++◌, some, none, if◌then◌else◌,
}
use vision_box_dual_cam.Base.Int.{success}
use vision_box_dual_cam.Base.Camera.{Camera}
use vision_box_dual_cam.Queue.Deque.{en_q, is_empty}
use vision_box_dual_cam.Queue.Inner.{main_en_q}
use vision_box_dual_cam.Queue.Json.{JsonInfo, io_json_en_q}
use vision_box_dual_cam.Algo.Assign.{Commands}
use vision_box_dual_cam.Threads.Worker.{Gate, resume}
use vision_box_dual_cam.Main.{serve_commands}
use vision_box_dual_cam.Main.Laws.{woken, serve_commands-takes}
use vision_box_dual_cam.Command.{Requests, IoCmd, rows, number, cmd_str}
use vision_box_dual_cam.Command.Json.{JsonC, strcpy}
use vision_box_dual_cam.Command.Parse.{parse}
use vision_box_dual_cam.Command.Assign.{find_row, io_param_assign}
use vision_box_dual_cam.Receive.{
  Inbox, no_info, accepted, tell_main, json_parse_ios, parse_normal, ext_json_parse_dual,
}

-- The names of the rows differ.
pub find_row-cmd_str : (c : IoCmd) → find_row (cmd_str c) rows ≡ some c
unfolding find_row cmd_str streq
find_row-cmd_str IoCmd.trigger_set_process = refl
find_row-cmd_str IoCmd.trigger_get_process = refl
find_row-cmd_str IoCmd.din_set_process = refl
find_row-cmd_str IoCmd.din_get_process = refl
find_row-cmd_str IoCmd.ios_get_status = refl
find_row-cmd_str IoCmd.light_set_pwm = refl
find_row-cmd_str IoCmd.light_get_pwm = refl
find_row-cmd_str IoCmd.led_set_process = refl
find_row-cmd_str IoCmd.led_get_process = refl
find_row-cmd_str IoCmd.led_set_mode = refl
find_row-cmd_str IoCmd.din_set_mode = refl
find_row-cmd_str IoCmd.dout_set_mode = refl
find_row-cmd_str IoCmd.dout_manual_control = refl
find_row-cmd_str IoCmd.dio_get_status = refl
find_row-cmd_str IoCmd.light_set_brightness = refl
find_row-cmd_str IoCmd.light_get_brightness = refl
find_row-cmd_str IoCmd.camera_streaming_control = refl
find_row-cmd_str IoCmd.modbus_set_params = refl
find_row-cmd_str IoCmd.modbus_get_params = refl
find_row-cmd_str IoCmd.trigger_set_mode = refl
find_row-cmd_str IoCmd.report_test_result = refl
find_row-cmd_str IoCmd.auto_test_set_mode = refl
find_row-cmd_str IoCmd.io_rtc_set_mode = refl
find_row-cmd_str IoCmd.io_sys_get_params = refl
find_row-cmd_str IoCmd.io_shop_floor_control = refl

short_name : (c : IoCmd) → strcpy 1024 (cmd_str c) ≡ some (cmd_str c)
unfolding strcpy cmd_str
short_name IoCmd.trigger_set_process = refl
short_name IoCmd.trigger_get_process = refl
short_name IoCmd.din_set_process = refl
short_name IoCmd.din_get_process = refl
short_name IoCmd.ios_get_status = refl
short_name IoCmd.light_set_pwm = refl
short_name IoCmd.light_get_pwm = refl
short_name IoCmd.led_set_process = refl
short_name IoCmd.led_get_process = refl
short_name IoCmd.led_set_mode = refl
short_name IoCmd.din_set_mode = refl
short_name IoCmd.dout_set_mode = refl
short_name IoCmd.dout_manual_control = refl
short_name IoCmd.dio_get_status = refl
short_name IoCmd.light_set_brightness = refl
short_name IoCmd.light_get_brightness = refl
short_name IoCmd.camera_streaming_control = refl
short_name IoCmd.modbus_set_params = refl
short_name IoCmd.modbus_get_params = refl
short_name IoCmd.trigger_set_mode = refl
short_name IoCmd.report_test_result = refl
short_name IoCmd.auto_test_set_mode = refl
short_name IoCmd.io_rtc_set_mode = refl
short_name IoCmd.io_sys_get_params = refl
short_name IoCmd.io_shop_floor_control = refl

-- What a command of the IO process leaves in the queues.
abbrev pub io_info : IoCmd → JsonInfo
io_info c = record { algo_id = number c; cmd = cmd_str c; json_buf = "" }

abbrev pub with_io : IoCmd → Requests → Inbox → Inbox
with_io c r b = record b {
  requests = r;
  shared = record b.shared {
    json = record b.shared.json { io_json = b.shared.json.io_json ++ (io_info c ∷ []) };
    inner = record b.shared.inner { main = b.shared.inner.main ++ (cmd_str c ∷ []) };
  };
}

pub woken_after : {A : Type 0} (q : List A) (x : A) (g : Gate) → woken (q ++ (x ∷ [])) g ≡ resume g
woken_after [] x g = refl
woken_after (y ∷ q) x g = refl

pub busy : {A : Type 0} (q : List A) (x : A) → is_empty (q ++ (x ∷ [])) ≡ false
unfolding is_empty
busy [] x = refl
busy (y ∷ q) x = refl

-- The round that takes the message of the command finds the command in the IO queue.
io_wakes :
    (c : IoCmd) (r : Requests) (b : Inbox)
    → (serve_commands (with_io c r b).shared).threads.io ≡ resume b.shared.threads.io
io_wakes c r b =
    let (taken, cam1, cam2, io, ip1, ip2, gate) = serve_commands-takes (with_io c r b).shared in
    gate
    ∙ ap
        (λ t.
          if t
          then b.shared.threads.io
          else woken (b.shared.json.io_json ++ (io_info c ∷ [])) b.shared.threads.io)
        (busy b.shared.inner.main (cmd_str c))
    ∙ woken_after b.shared.json.io_json (io_info c) b.shared.threads.io

module _ {J : Type 0} (lib : JsonC J) (cmds : Commands J) (beyond : String) where
  io_param_io :
      (c : IoCmd) (root : J) (r r' : Requests)
      → parse lib c root r ≡ some r'
      → io_param_assign lib beyond (cmd_str c) root no_info r ≡ some (success, io_info c, r')
  unfolding io_param_assign
  io_param_io c root r r' p = rw (io_param_assign, find_row-cmd_str c, p) refl

  json_parse_io :
      (c : IoCmd) (root v : J) (r' : Requests) (b : Inbox)
      → lib.object_get "cmd" root ≡ some v
      → lib.get_string v ≡ cmd_str c
      → parse lib c root b.requests ≡ some r'
      → json_parse_ios lib cmds beyond root b
        ≡ some (
          success,
          record b {
            requests = r';
            shared = record b.shared { json = (io_json_en_q (io_info c) b.shared.json).1 };
          },
        )
  unfolding json_parse_ios
  json_parse_io c root v r' b g n p =
      rw (json_parse_ios, g, n, io_param_io c root b.requests r' p) refl

  parse_io :
      (id : Camera) (c : IoCmd) (root v : J) (r' : Requests) (b : Inbox)
      → lib.object_get "cmd" root ≡ some v
      → lib.get_string v ≡ cmd_str c
      → parse lib c root b.requests ≡ some r'
      → parse_normal lib cmds beyond id root b ≡ some (with_io c r' b)
  unfolding parse_normal accepted tell_main io_json_en_q main_en_q en_q
  parse_io id c root v r' b g n p =
      rw (parse_normal, g, n, short_name c, json_parse_io c root v r' b g n p) refl

  pub ext_io :
      (id : Camera) (c : IoCmd) (root v : J) (r' : Requests) (b : Inbox)
      → lib.object_get "ARRAY" root ≡ none
      → lib.object_get "cmd" root ≡ some v
      → lib.get_string v ≡ cmd_str c
      → parse lib c root b.requests ≡ some r'
      → ext_json_parse_dual lib cmds beyond id (some root) b ≡ some (with_io c r' b)
  unfolding ext_json_parse_dual
  ext_io id c root v r' b a g n p =
      rw (ext_json_parse_dual, a, parse_io id c root v r' b g n p) refl

  -- A message with a command of the IO process, whose arguments its parser accepts: the requests are those that
  -- the parser leaves, the command goes to the end of the IO queue whatever camera the message is for, and the
  -- next round of the main loop resumes the IO thread. The image thread gets no command.
  pub ext_json_parse_dual-io :
      (id : Camera) (c : IoCmd) (root v : J) (r' : Requests) (b : Inbox)
      → lib.object_get "ARRAY" root ≡ none
      → lib.object_get "cmd" root ≡ some v
      → lib.get_string v ≡ cmd_str c
      → parse lib c root b.requests ≡ some r'
      → (b' : Inbox) × (ext_json_parse_dual lib cmds beyond id (some root) b ≡ some b')
        × (b'.requests ≡ r')
        × (b'.shared.json.io_json ≡ b.shared.json.io_json ++ (io_info c ∷ []))
        × (b'.shared.json.json_dual ≡ b.shared.json.json_dual)
        × (b'.shared.algo ≡ b.shared.algo)
        × ((serve_commands b'.shared).threads.io ≡ resume b.shared.threads.io)
  ext_json_parse_dual-io id c root v r' b a g n p =
      (with_io c r' b, ext_io id c root v r' b a g n p, refl, refl, refl, refl, io_wakes c r' b)
