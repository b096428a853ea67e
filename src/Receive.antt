-- ===== src/Receive.antt =====
-- mainCtl/ext_mqtt_client.c: a message of the web backend becomes commands in the queues. `none` is the end
-- of the process: a copy from a null pointer or past the end of an array, or `exit`.
pub mod Io
pub mod Unknown
pub mod Ends
pub mod Arrays
pub mod Bounds
pub mod Samples
mod Tests
use Prim.Native.String.{◌++◌ as str_append}
use vision_box_dual_cam.Base.{
  ℕ, zero, suc, ◌+◌, ◌/◌, ◌%◌, ◌==◌, ltb, Bool, true, false, ◌||◌, not, String, codes, length,
  streq, List, [], ◌∷◌, Option, some, none, if◌then◌else◌,
}
use vision_box_dual_cam.Base.Int.{ℤ, pos, negsuc, success, failure}
use vision_box_dual_cam.Base.Camera.{Camera, camera_1, camera_2}
use vision_box_dual_cam.Queue.Inner.{main_en_q}
use vision_box_dual_cam.Queue.Json.{JsonInfo, json_dual_en_q, io_json_en_q}
use vision_box_dual_cam.Algo.Assign.{Commands, Algo, param_assign_dual}
use vision_box_dual_cam.Main.{Shared}
use vision_box_dual_cam.Command.{Requests}
use vision_box_dual_cam.Command.Json.{JsonC, strcpy}
use vision_box_dual_cam.Command.Assign.{io_param_assign}

-- What the MQTT thread shares with the others.
pub record Inbox : Type 0 where
  pub shared : Shared
  pub requests : Requests
  pub ios_cameraid : ℕ

-- `seJsonInfo` and `seIO_JsonInfo` after `memset`.
abbrev pub no_info : JsonInfo
no_info = record { algo_id = 0; cmd = ""; json_buf = "" }

-- `ret == 0`.
unfoldable pub accepted : ℤ → Bool
accepted (pos n) = n == 0
accepted (negsuc n) = false

-- A message of the subscription, as far as the callback reads it.
pub record Message : Type 0 where
  pub topic : String
  pub payload : String
  pub payloadlen : ℕ
  pub retain : Bool

unfoldable pub digit : ℕ → String
digit n =
    if n == 0
    then "0"
    else if n == 1
    then "1"
    else if n == 2
    then "2"
    else if n == 3
    then "3"
    else if n == 4
    then "4"
    else if n == 5
    then "5"
    else if n == 6
    then "6"
    else if n == 7
    then "7"
    else if n == 8
    then "8"
    else "9"

-- `std::to_string`, with one round for each digit at least.
unfoldable pub to_digits : (fuel : ℕ) → ℕ → String
unfolding digit
to_digits zero n = digit n
to_digits (suc f) n =
    let rest = str_append (to_digits f (n / 10)) (digit (n % 10)) in
    if ltb n 10 then digit n else rest

-- The key of element `i` of `n`: "CMD_START", "ROI_1" and so on, "CMD_END".
unfoldable pub str_key : (n i : ℕ) → String
unfolding to_digits
str_key n i =
    if i == 0
    then "CMD_START"
    else if i + 1 == n
    then "CMD_END"
    else str_append "ROI_" (to_digits i i)

-- `innerQ_Main_EnQ`.
unfoldable pub tell_main : String → Inbox → Inbox
tell_main msg b = record b { shared = record b.shared { inner = (main_en_q msg b.shared.inner).1 } }

module _ {J : Type 0} (lib : JsonC J) (cmds : Commands J) (beyond : String) where
  -- `json_parse_IOS`.
  unfoldable pub json_parse_ios : J → Inbox → Option (ℤ × Inbox)
  json_parse_ios root b = elim (lib.object_get "cmd" root) [
    | some v ↦ elim (io_param_assign lib beyond (lib.get_string v) root no_info b.requests) [
      | some (ret, info, r) ↦ elim ret [
        | pos n ↦ some (
          pos n,
          record b {
            requests = r;
            shared = record b.shared { json = (io_json_en_q info b.shared.json).1 };
          },
        )
        | negsuc n ↦ some (negsuc n, record b { requests = r })
      ]
      | none ↦ none
    ]
    | none ↦ some (failure, b)
  ]

  -- A command for the image process. A name that is in no table leaves the record as it was, and it is
  -- queued nevertheless. The result is the name in the record.
  unfoldable pub assign_camera : Camera → String → J → Inbox → Option (String × Inbox)
  assign_camera id key root b = elim (param_assign_dual cmds key root no_info id b.shared.algo) [
    | some (ret, info, a) ↦ some (
      info.cmd,
      record b {
        shared = record b.shared { algo = a; json = (json_dual_en_q id info b.shared.json).1 };
      },
    )
    | none ↦ none
  ]

  -- One command: first it is taken for one of the IO process. `setFunc` has 1024 bytes.
  unfoldable pub parse_normal : Camera → J → Inbox → Option Inbox
  parse_normal id root b = elim (lib.object_get "cmd" root) [
    | some v ↦ elim (strcpy 1024 (lib.get_string v)) [
      | some set_func ↦ elim (json_parse_ios root b) [
        | some (ret, b1) ↦
            if accepted ret
            then some (tell_main set_func b1)
            else elim (assign_camera id (lib.get_string v) root b1) [
              | some (cmd, b2) ↦ some (tell_main cmd b2)
              | none ↦ none
            ]
        | none ↦ none
      ]
      | none ↦ none
    ]
    | none ↦ none
  ]

  -- The commands of one element of an "ARRAY": only those of the image process.
  unfoldable pub parse_element : Camera → List J → Inbox → Option Inbox
  parse_element id [] b = some b
  parse_element id (x ∷ xs) b = elim (lib.object_get "cmd" x) [
    | some v ↦ elim (assign_camera id (lib.get_string v) x b) [
      | some (cmd, b1) ↦ parse_element id xs (tell_main cmd b1)
      | none ↦ none
    ]
    | none ↦ parse_element id xs b
  ]

  -- The elements from the `i`-th of `n`. One without its key ends the loop.
  unfoldable pub parse_array : Camera → (n i : ℕ) → List J → Inbox → Option Inbox
  parse_array id n i [] b = some b
  parse_array id n i (x ∷ xs) b = elim (lib.object_get (str_key n i) x) [
    | some y ↦ elim (parse_element id (lib.array y) b) [
      | some b1 ↦ parse_array id n (i + 1) xs b1
      | none ↦ none
    ]
    | none ↦ some b
  ]

  -- `ext_json_parse_Dual`, for what `json_tokener_parse` finds in the payload.
  unfoldable pub ext_json_parse_dual : Camera → Option J → Inbox → Option Inbox
  ext_json_parse_dual id none b = none
  ext_json_parse_dual id (some root) b = elim (lib.object_get "ARRAY" root) [
    | some y ↦ parse_array id (length (lib.array y)) 0 (lib.array y) b
    | none ↦ parse_normal id root b
  ]

  -- `ext_message_callback_Dual` with the configuration of `ext_init_config_Dual`, which filters nothing.
  unfoldable pub message_callback :
      (tokener_parse : String → Option J) → Message → Inbox → Option Inbox
  message_callback tokener_parse m b =
      if m.payloadlen == 0
      then some b
      else if not (m.payloadlen == length (codes m.payload))
      then none
      else if streq m.topic "PX/VBS/Cmd/Cam2"
      then ext_json_parse_dual camera_2 (tokener_parse m.payload) (record b { ios_cameraid = 1 })
      else ext_json_parse_dual camera_1 (tokener_parse m.payload) (record b { ios_cameraid = 0 })
