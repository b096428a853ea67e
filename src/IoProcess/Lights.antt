-- ===== src/IoProcess/Lights.antt =====
-- The brightness that a message sets and the one that the program reports.
use vision_box_dual_cam.Base.{ℕ, ◌==◌, if◌then◌else◌}
use vision_box_dual_cam.Node.{ProcessNode}
use vision_box_dual_cam.Io.Light.{light_source_1}

-- What a node notes for a light.
abbrev pub noted : ℕ → ProcessNode → ℕ
noted l n = if l == light_source_1 then n.brightness1 else n.brightness2
