-- ===== src/Receive/Samples.antt =====
-- Concrete states of the MQTT thread for the tests, and documents that it receives.
use vision_box_dual_cam.Base.{[]}
use vision_box_dual_cam.Base.Int.{pos}
use vision_box_dual_cam.Queue.Inner.{no_messages}
use vision_box_dual_cam.Algo.Assign.{Commands}
use vision_box_dual_cam.Threads.{initial}
use vision_box_dual_cam.Samples.{sample_algo}
use vision_box_dual_cam.Main.{Shared}
use vision_box_dual_cam.Command.{no_requests}
use vision_box_dual_cam.Command.Samples.{Doc, obj, str, arr, key, stop, item, last}
use vision_box_dual_cam.Receive.{Inbox}

-- Every parser of the image process accepts its document.
abbrev pub doc_commands : Commands Doc
doc_commands = record { parse = λ i j args. (pos 0, args, "{}"); convert = λ i args p. p }

abbrev pub sample_shared : Shared
sample_shared = record {
  inner = no_messages;
  json = record { json = []; json_dual = record { first = []; second = [] }; io_json = [] };
  algo = sample_algo;
  threads = initial;
}

abbrev pub sample_inbox : Inbox
sample_inbox = record { shared = sample_shared; requests = no_requests; ios_cameraid = 0 }

-- A command of no table, and an array with it and a command of the IO process.
abbrev pub unknown_command : Doc
unknown_command = obj (key "cmd" (str "SELF_DESTRUCT") stop)

abbrev pub array_command : Doc
array_command = obj (
    key "ARRAY"
      (arr (
        item
          (obj (
            key "CMD_START"
              (arr (
                item (obj (key "cmd" (str "SELF_DESTRUCT") stop))
                  (item (obj (key "cmd" (str "DOUT_MANUAL_CONTROL") stop)) last)))
              stop))
          last))
      stop)
