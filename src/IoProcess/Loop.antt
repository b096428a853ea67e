-- ===== src/IoProcess/Loop.antt =====
-- mainCtl/mainCtl.c: the loops of `ios_process`, and the steps that the IO thread and the MQTT thread take in
-- turn.
use vision_box_dual_cam.Base.{ℕ, zero, suc, List, [], ◌∷◌, Option, none, some, if◌then◌else◌}
use vision_box_dual_cam.Queue.Json.{JsonInfo, io_json_de_q, io_json_is_empty}
use vision_box_dual_cam.Main.{Shared}
use vision_box_dual_cam.Receive.{Inbox}
use vision_box_dual_cam.IoProcess.Station.{Env, Plant}
use vision_box_dual_cam.IoProcess.Handle.{handle_info}

-- The queues and threads of the main process beside the state of the IO process.
pub record Site (Chip : Type 0) : Type 0 where
  pub shared : Shared
  pub plant : Plant Chip

module _ {Chip : Type 0} (env : Env Chip) where
  -- The inner loop, at most so many passes.
  unfoldable pub drain_io : (fuel : ℕ) → Site Chip → Option (Site Chip)
  drain_io zero s = some s
  drain_io (suc f) s =
      if io_json_is_empty s.shared.json
      then some s
      else (let (ret, info, q) = io_json_de_q s.shared.json in
          elim info [
            | some i ↦ elim (handle_info env i s.plant) [
              | some p ↦ drain_io f (record s { shared = record s.shared { json = q }; plant = p })
              | none ↦ none
            ]
            | none ↦ some s
          ])

  -- The commands of a list, in its order.
  unfoldable pub serve_all : List JsonInfo → Plant Chip → Option (Plant Chip)
  serve_all [] p = some p
  serve_all (i ∷ is) p = elim (handle_info env i p) [ some p1 ↦ serve_all is p1 | none ↦ none ]

module _ {Chip : Type 0} where
  -- What the MQTT thread shares with the site.
  abbrev pub inbox : Site Chip → Inbox
  inbox s = record {
    shared = s.shared;
    requests = s.plant.requests;
    ios_cameraid = s.plant.ios_cameraid;
  }

  abbrev pub with_inbox : Inbox → Site Chip → Site Chip
  with_inbox b s = record {
    shared = b.shared;
    plant = record s.plant { requests = b.requests; ios_cameraid = b.ios_cameraid };
  }
