-- ===== src/IoProcess/Drain.antt =====
-- The inner loop of `ios_process` against the list of the queued commands.
use vision_box_dual_cam.Base.{
  ℕ, zero, suc, ◌≤◌, arith, ◌≡◌, refl, length, List, [], ◌∷◌, Option, none, some,
}
use vision_box_dual_cam.Queue.Deque.{de_q, is_empty}
use vision_box_dual_cam.Queue.Json.{JsonInfo, io_json_de_q, io_json_is_empty}
use vision_box_dual_cam.Main.{Shared}
use vision_box_dual_cam.IoProcess.Station.{Env, Plant}
use vision_box_dual_cam.IoProcess.Handle.{handle_info}
use vision_box_dual_cam.IoProcess.Loop.{Site, drain_io, serve_all}

abbrev pub with_queue : List JsonInfo → Shared → Shared
with_queue q s = record s { json = record s.json { io_json = q } }

-- The loop's result for what the commands leave: the queue is empty.
abbrev pub drained : {Chip : Type 0} → Shared → Option (Plant Chip) → Option (Site Chip)
drained s none = none
drained s (some p) = some (record { shared = with_queue [] s; plant = p })

module _ {Chip : Type 0} (env : Env Chip) where
  drain_queue :
      (n : ℕ) (q : List JsonInfo) (s : Shared) (p : Plant Chip)
      → length q ≤ n
      → drain_io env n (record { shared = with_queue q s; plant = p })
        ≡ drained s (serve_all env q p)
  unfolding drain_io serve_all io_json_de_q io_json_is_empty de_q is_empty
  drain_queue zero [] s p h = refl
  drain_queue (suc n) [] s p h = refl
  drain_queue zero (i ∷ q) s p h = ground arith
  drain_queue (suc n) (i ∷ q) s p h =
      by_result (λ p1. drain_queue n q s p1 (omega arith)) (handle_info env i p)
    where
      by_result :
          (later : (p1 : Plant Chip)
            → drain_io env n (record { shared = with_queue q s; plant = p1 })
              ≡ drained s (serve_all env q p1))
          (o : Option (Plant Chip))
          → elim o as (λ _. Option (Site Chip)) [
            | some p1 ↦ drain_io env n (record { shared = with_queue q s; plant = p1 })
            | none ↦ none
          ]
            ≡ drained s (elim o [ some p1 ↦ serve_all env q p1 | none ↦ none ])
      by_result later none = refl
      by_result later (some p1) = later p1

  -- The loop ends after as many passes as commands are queued, and more passes change nothing: it leaves an
  -- empty queue and what the commands make of the state, each handled once and in the order in which they
  -- were queued, unless one of them ends the process.
  pub drain_io-serve_all :
      (n : ℕ) (t : Site Chip)
      → length t.shared.json.io_json ≤ n
      → drain_io env n t ≡ drained t.shared (serve_all env t.shared.json.io_json t.plant)
  drain_io-serve_all n t h = drain_queue n t.shared.json.io_json t.shared t.plant h
