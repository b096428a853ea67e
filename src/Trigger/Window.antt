-- ===== src/Trigger/Window.antt =====
-- iosCtl/iosCtl.c, `trigCtl`: when a round queues a trigger.
use vision_box_dual_cam.Base.{◌≡◌, ◌≢◌, ◌≤◌, Bool, true, ◌-◌}
use vision_box_dual_cam.Trigger.{line, index, agrees, Input, Wires, Round, Watch}
use vision_box_dual_cam.Trigger.Modes.{Still}

module _ (w : Wires) (r : Round) where
  -- The last edge is 51 to 52 milliseconds old, and the level that was read is the one after that edge.
  unfoldable pub Debounced : Watch → Type 0
  Debounced z =
      (51000000 ≤ r.now_end - z.start)
      × (r.now_end - z.start ≤ 52000000)
      × ((i : Input) × (line i ≡ z.debounce_pin) × (agrees (w.trig_edge (index i)) z.rvalue ≡ true))

  unfoldable Sound : Bool × Watch → Type 0
  unfolding Debounced
  Sound x = x.0 ≡ true → Debounced x.1

  -- Only a round that ends debounced changes what others see.
  unfoldable Told : Watch → Bool × Watch → Type 0
  unfolding Still
  Told s x = x.1.queues ≢ s.queues → Debounced x.1
