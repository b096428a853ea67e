-- ===== src/IoProcess/World.antt =====
-- The MQTT thread and the IO thread take turns.
use vision_box_dual_cam.Base.{ℕ, ◌≡◌, String, Option, some}
use vision_box_dual_cam.Algo.Assign.{Commands}
use vision_box_dual_cam.Main.{serve_commands}
use vision_box_dual_cam.Command.Json.{JsonC}
use vision_box_dual_cam.Receive.{Message, message_callback}
use vision_box_dual_cam.IoProcess.Station.{Env}
use vision_box_dual_cam.IoProcess.Loop.{Site, drain_io, inbox, with_inbox}

module _ {Chip J : Type 0} (env : Env Chip) (lib : JsonC J) (cmds : Commands J) (beyond : String)
    (tokener_parse : String → Option J) where
  -- A message arrives, the IO thread handles some commands, or the main loop serves its queues, in any
  -- order; only steps on which the process lives on.
  pub data Reach (s : Site Chip) : Site Chip → Type 0 where
    start : Reach s s
    message :
        {t : Site Chip} {b : _} (m : Message)
        → Reach s t
        → message_callback lib cmds beyond tokener_parse m (inbox t) ≡ some b
        → Reach s (with_inbox b t)
    commands : {t u : Site Chip} (n : ℕ) → Reach s t → drain_io env n t ≡ some u → Reach s u
    main_loop :
        {t : Site Chip} → Reach s t → Reach s (record t { shared = serve_commands t.shared })
