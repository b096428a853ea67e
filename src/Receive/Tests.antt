-- ===== src/Receive/Tests.antt =====
-- Runs of the theorems on messages.
use vision_box_dual_cam.Base.{◌≡◌, refl, false, none, some, streq, [], ◌∷◌, ◌++◌}
use vision_box_dual_cam.Base.Int.{pos, negsuc, wrap}
use vision_box_dual_cam.Base.Camera.{camera_1, camera_2, at}
use vision_box_dual_cam.Threads.{initial}
use vision_box_dual_cam.Threads.Worker.{resume}
use vision_box_dual_cam.Algo.HashMap.{
  create_hash_map, compare_hash_map, insert_rows, insert, find, answer,
}
use vision_box_dual_cam.Algo.Names.{enum_subscribe_cam_reg}
use vision_box_dual_cam.Main.{serve_commands}
use vision_box_dual_cam.Command.{Requests, IoCmd, no_requests, cmd_str}
use vision_box_dual_cam.Command.Json.{strcpy, run_arg, run_args, with_args}
use vision_box_dual_cam.Command.Parse.{parse, args_of, u8, dout_manual_control_args}
use vision_box_dual_cam.Command.Samples.{
  str, sample_lib, dout_command, get, find_key, int_in, text_in,
}
use vision_box_dual_cam.Receive.{Inbox, Message, no_info, ext_json_parse_dual, message_callback}
use vision_box_dual_cam.Command.Assign.{find_row}
use vision_box_dual_cam.Command.{rows}
use vision_box_dual_cam.Receive.Io.{io_info, ext_json_parse_dual-io}
use vision_box_dual_cam.Receive.Unknown.{with_unknown, ext_json_parse_dual-unknown}
use vision_box_dual_cam.Receive.Ends.{message_callback-commandless}
use vision_box_dual_cam.Receive.Samples.{doc_commands, sample_shared, sample_inbox, unknown_command}

abbrev switched : Requests
switched = record no_requests {
  dout = record no_requests.dout { out_pin = 2; out_mode = "High" };
  cmd_info = "{}";
}

parsed :
    parse sample_lib IoCmd.dout_manual_control (dout_command (pos 2)) no_requests ≡ some switched
unfolding parse args_of dout_manual_control_args with_args run_args run_arg strcpy u8 wrap get
    find_key int_in text_in streq
parsed = refl

ext_json_parse_dual-io_example :
    (b' : Inbox) × (ext_json_parse_dual sample_lib doc_commands "" camera_2
        (some (dout_command (pos 2)))
        sample_inbox
      ≡ some b')
    × (b'.requests ≡ switched)
    × (b'.shared.json.io_json ≡ [] ++ (io_info IoCmd.dout_manual_control ∷ []))
    × (b'.shared.json.json_dual ≡ sample_shared.json.json_dual)
    × (b'.shared.algo ≡ sample_shared.algo)
    × ((serve_commands b'.shared).threads.io ≡ resume initial.io)
unfolding get find_key text_in streq cmd_str
ext_json_parse_dual-io_example =
    ext_json_parse_dual-io sample_lib doc_commands "" camera_2 IoCmd.dout_manual_control
      (dout_command (pos 2)) _ switched sample_inbox refl refl refl parsed

no_row : compare_hash_map "SELF_DESTRUCT" (create_hash_map enum_subscribe_cam_reg []) ≡ negsuc 0
unfolding compare_hash_map create_hash_map enum_subscribe_cam_reg insert_rows insert find answer
    streq
no_row = refl

no_io_row : find_row "SELF_DESTRUCT" rows ≡ none
unfolding find_row cmd_str streq
no_io_row = refl

ext_json_parse_dual-unknown_example :
    (b' : Inbox) × (ext_json_parse_dual sample_lib doc_commands "" camera_2
        (some unknown_command)
        sample_inbox
      ≡ some b')
    × (b'.shared.inner.main ≡ [] ++ ("" ∷ []))
    × (at camera_2 b'.shared.json.json_dual ≡ [] ++ (no_info ∷ []))
    × (b'.shared.algo ≡ sample_shared.algo)
    × (b'.requests ≡ no_requests)
    × (at camera_2 (serve_commands b'.shared).threads.ip ≡ resume initial.ip.second)
unfolding get find_key text_in streq
ext_json_parse_dual-unknown_example =
    ext_json_parse_dual-unknown sample_lib doc_commands "" camera_2 unknown_command
      (str "SELF_DESTRUCT") sample_inbox 0 refl refl refl no_io_row refl no_row

-- A text that is no JSON.
abbrev noise : Message
noise = record { topic = "PX/VBS/Cmd/Cam1"; payload = "hello"; payloadlen = 5; retain = false }

message_callback-commandless_example :
    message_callback sample_lib doc_commands "" (λ s. none) noise sample_inbox ≡ none
message_callback-commandless_example =
    message_callback-commandless sample_lib doc_commands "" (λ s. none) noise sample_inbox refl refl

abbrev both_unknown : Inbox
both_unknown = with_unknown camera_1 (with_unknown camera_1 sample_inbox)
