-- ===== src/Queue/Tests.antt =====
-- Runs of the queue theorems on concrete calls.
use vision_box_dual_cam.Base.{List, [], ◌∷◌, String}
use vision_box_dual_cam.Queue.Fifo
use vision_box_dual_cam.Queue.Fifo.{Op, put, take}
use vision_box_dual_cam.Queue.Inner.Laws

abbrev calls : List (Op String)
calls = put "Din_Trigger" ∷ put "Din_Trigger_Dual" ∷ take ∷ take ∷ take ∷ []
