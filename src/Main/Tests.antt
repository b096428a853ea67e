-- ===== src/Main/Tests.antt =====
-- Runs of the theorems on the main loop.
use vision_box_dual_cam.Base.{◌≡◌, [], ◌∷◌, if◌then◌else◌}
use vision_box_dual_cam.Queue.Deque.{is_empty}
use vision_box_dual_cam.Queue.Inner.{no_messages}
use vision_box_dual_cam.Queue.Json.{JsonInfo}
use vision_box_dual_cam.Threads.{initial}
use vision_box_dual_cam.Samples.{sample_algo}
use vision_box_dual_cam.Main.{Shared, serve_commands}
use vision_box_dual_cam.Main.Laws.{woken, serve_commands-takes}

abbrev command : JsonInfo
command = record { algo_id = 1; cmd = "TRIGGERMODE_SET_PARAM"; json_buf = "{}" }

-- A command for the second camera, with its message.
abbrev one_command : Shared
one_command = record {
  inner = record no_messages { main = "CMD" ∷ [] };
  json = record {
    json = [];
    json_dual = record { first = []; second = command ∷ [] };
    io_json = [];
  };
  algo = sample_algo;
  threads = initial;
}

serve_commands-takes_example :
    let s' = serve_commands one_command in
    let idle = is_empty one_command.inner.main in
    (s'.inner.main ≡ [])
    × (s'.json.json_dual.first ≡ (if idle then [] else []))
    × (s'.json.json_dual.second ≡ (if idle then command ∷ [] else []))
    × (s'.json.io_json ≡ [])
    × (s'.threads.ip.first
        ≡ (if idle then initial.ip.first else woken {A = JsonInfo} [] initial.ip.first))
    × (s'.threads.ip.second
        ≡ (if idle then initial.ip.second else woken (command ∷ []) initial.ip.second))
    × (s'.threads.io ≡ (if idle then initial.io else woken {A = JsonInfo} [] initial.io))
serve_commands-takes_example = serve_commands-takes one_command
