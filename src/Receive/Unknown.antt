-- ===== src/Receive/Unknown.antt =====
-- A command whose name is in no table of the program.
use vision_box_dual_cam.Base.{
  ℕ, ◌≡◌, refl, ap, ◌∙◌, ltb, true, false, String, codes, length, streq, [], ◌∷◌, ◌++◌, some, none,
  if◌then◌else◌,
}
use vision_box_dual_cam.Base.Int.{negsuc, failure}
use vision_box_dual_cam.Base.Camera.{Camera, camera_1, camera_2, at, put_at, at-put_at_self}
use vision_box_dual_cam.Queue.Deque.{en_q}
use vision_box_dual_cam.Queue.Inner.{main_en_q}
use vision_box_dual_cam.Queue.Json.{json_dual_en_q}
use vision_box_dual_cam.Algo.HashMap.{compare_hash_map}
use vision_box_dual_cam.Algo.Assign.{Commands, param_assign_dual}
use vision_box_dual_cam.Threads.Worker.{resume}
use vision_box_dual_cam.Main.{serve_commands}
use vision_box_dual_cam.Main.Laws.{woken, serve_commands-takes}
use vision_box_dual_cam.Command.{rows}
use vision_box_dual_cam.Command.Json.{JsonC, strcpy}
use vision_box_dual_cam.Command.Assign.{find_row, io_param_assign}
use vision_box_dual_cam.Receive.{
  Inbox, no_info, accepted, tell_main, json_parse_ios, assign_camera, parse_normal,
  ext_json_parse_dual,
}
use vision_box_dual_cam.Receive.Io.{woken_after, busy}

-- What the command leaves: a record and a message without a name.
abbrev pub with_unknown : Camera → Inbox → Inbox
with_unknown id b = record b {
  shared = record b.shared {
    json = record b.shared.json {
      json_dual =
          put_at id (at id b.shared.json.json_dual ++ (no_info ∷ [])) b.shared.json.json_dual;
    };
    inner = record b.shared.inner { main = b.shared.inner.main ++ ("" ∷ []) };
  };
}

unknown_wakes :
    (id : Camera) (b : Inbox)
    → at id (serve_commands (with_unknown id b).shared).threads.ip
      ≡ resume (at id b.shared.threads.ip)
unknown_wakes camera_1 b =
    let (taken, cam1, cam2, io, ip1, ip2, gate) =
      serve_commands-takes (with_unknown camera_1 b).shared in
    ip1
    ∙ ap
        (λ t.
          if t
          then b.shared.threads.ip.first
          else woken (b.shared.json.json_dual.first ++ (no_info ∷ [])) b.shared.threads.ip.first)
        (busy b.shared.inner.main "")
    ∙ woken_after b.shared.json.json_dual.first no_info b.shared.threads.ip.first
unknown_wakes camera_2 b =
    let (taken, cam1, cam2, io, ip1, ip2, gate) =
      serve_commands-takes (with_unknown camera_2 b).shared in
    ip2
    ∙ ap
        (λ t.
          if t
          then b.shared.threads.ip.second
          else woken (b.shared.json.json_dual.second ++ (no_info ∷ [])) b.shared.threads.ip.second)
        (busy b.shared.inner.main "")
    ∙ woken_after b.shared.json.json_dual.second no_info b.shared.threads.ip.second

module _ {J : Type 0} (lib : JsonC J) (cmds : Commands J) (beyond : String) where
  io_unknown :
      (root v : J) (b : Inbox)
      → lib.object_get "cmd" root ≡ some v
      → find_row (lib.get_string v) rows ≡ none
      → streq (lib.get_string v) beyond ≡ false
      → json_parse_ios lib cmds beyond root b ≡ some (failure, b)
  unfolding json_parse_ios io_param_assign
  io_unknown root v b g f s = rw (json_parse_ios, g, io_param_assign, f, s) refl

  camera_unknown :
      (id : Camera) (key : String) (root : J) (b : Inbox) (n : ℕ)
      → compare_hash_map key b.shared.algo.hash_param ≡ negsuc n
      → assign_camera lib cmds beyond id key root b
        ≡ some (
          "",
          record b {
            shared = record b.shared { json = (json_dual_en_q id no_info b.shared.json).1 };
          },
        )
  unfolding assign_camera param_assign_dual
  camera_unknown id key root b n h = rw (assign_camera, param_assign_dual, h) refl

  parse_unknown :
      (id : Camera) (root v : J) (b : Inbox) (n : ℕ)
      → lib.object_get "cmd" root ≡ some v
      → ltb (length (codes (lib.get_string v))) 1024 ≡ true
      → find_row (lib.get_string v) rows ≡ none
      → streq (lib.get_string v) beyond ≡ false
      → compare_hash_map (lib.get_string v) b.shared.algo.hash_param ≡ negsuc n
      → parse_normal lib cmds beyond id root b ≡ some (with_unknown id b)
  unfolding accepted tell_main json_dual_en_q main_en_q en_q parse_normal strcpy
  parse_unknown id root v b n g l f s h =
      rw
        (
          parse_normal,
          g,
          strcpy,
          l,
          io_unknown root v b g f s,
          camera_unknown id (lib.get_string v) root b n h,
        )
        refl

  -- A message with a command whose name is in neither table is not refused: a record and a message without a
  -- name are queued, and the next round of the main loop resumes the image thread of the
  -- message's camera, although neither a task nor a request was made. The name is shorter than 1024 bytes and is
  -- not the text behind the table of the IO process.
  pub ext_json_parse_dual-unknown :
      (id : Camera) (root v : J) (b : Inbox) (n : ℕ)
      → lib.object_get "ARRAY" root ≡ none
      → lib.object_get "cmd" root ≡ some v
      → ltb (length (codes (lib.get_string v))) 1024 ≡ true
      → find_row (lib.get_string v) rows ≡ none
      → streq (lib.get_string v) beyond ≡ false
      → compare_hash_map (lib.get_string v) b.shared.algo.hash_param ≡ negsuc n
      → (b' : Inbox) × (ext_json_parse_dual lib cmds beyond id (some root) b ≡ some b')
        × (b'.shared.inner.main ≡ b.shared.inner.main ++ ("" ∷ []))
        × (at id b'.shared.json.json_dual ≡ at id b.shared.json.json_dual ++ (no_info ∷ []))
        × (b'.shared.algo ≡ b.shared.algo)
        × (b'.requests ≡ b.requests)
        × (at id (serve_commands b'.shared).threads.ip ≡ resume (at id b.shared.threads.ip))
  unfolding ext_json_parse_dual
  ext_json_parse_dual-unknown id root v b n a g l f s h = (
    with_unknown id b,
    rw (ext_json_parse_dual, a, parse_unknown id root v b n g l f s h) refl,
    refl,
    at-put_at_self id _ _,
    refl,
    refl,
    unknown_wakes id b,
  )
