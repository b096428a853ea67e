-- ===== src/IoProcess/Repeat.antt =====
-- Two messages with one command before the IO thread runs.
use vision_box_dual_cam.Base.{Option, none, some}
use vision_box_dual_cam.Base.Camera.{Camera}
use vision_box_dual_cam.Command.{IoCmd}
use vision_box_dual_cam.IoProcess.Station.{Env, Plant}
use vision_box_dual_cam.IoProcess.Handle.{handle}

module _ {Chip : Type 0} (env : Env Chip) where
  -- One command, and again.
  abbrev pub twice : IoCmd → Plant Chip → Option (Plant Chip)
  twice c p = elim (handle env c p) [ some p1 ↦ handle env c p1 | none ↦ none ]
