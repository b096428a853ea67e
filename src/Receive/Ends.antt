-- ===== src/Receive/Ends.antt =====
-- The messages on which the process ends.
use vision_box_dual_cam.Base.{◌≡◌, ◌==◌, Bool, true, false, String, Option, some, none, arith}
use vision_box_dual_cam.Base.Camera.{Camera, camera_1, camera_2}
use vision_box_dual_cam.Algo.Assign.{Commands}
use vision_box_dual_cam.Command.Json.{JsonC}
use vision_box_dual_cam.Receive.{
  Inbox, Message, parse_normal, ext_json_parse_dual, message_callback,
}

module _ {J : Type 0} (lib : JsonC J) where
  -- The text is no JSON, or a JSON text with neither a command nor an array of commands.
  abbrev pub commandless : Option J → Bool
  commandless none = true
  commandless (some root) = elim (lib.object_get "ARRAY" root) [
    | some y ↦ false
    | none ↦ elim (lib.object_get "cmd" root) [ some v ↦ false | none ↦ true ]
  ]

module _ {J : Type 0} (lib : JsonC J) (cmds : Commands J) (beyond : String) where
  parse-commandless :
      (id : Camera) (root : Option J) (b : Inbox)
      → commandless lib root ≡ true
      → ext_json_parse_dual lib cmds beyond id root b ≡ none
  unfolding ext_json_parse_dual parse_normal
  parse-commandless id root b h = ground arith

  -- A message that is not empty and holds no command, because it is no JSON text or has neither "cmd" nor
  -- "ARRAY", ends the process, on whatever topic it arrives and in whatever state.
  pub message_callback-commandless :
      (tokener_parse : String → Option J) (m : Message) (b : Inbox)
      → (m.payloadlen == 0) ≡ false
      → commandless lib (tokener_parse m.payload) ≡ true
      → message_callback lib cmds beyond tokener_parse m b ≡ none
  unfolding message_callback
  message_callback-commandless tokener_parse m b l h = ground (
    arith,
    parse-commandless camera_1 (tokener_parse m.payload) (record b { ios_cameraid = 0 }) h,
    parse-commandless camera_2 (tokener_parse m.payload) (record b { ios_cameraid = 1 }) h,
  )
