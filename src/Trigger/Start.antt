-- ===== src/Trigger/Start.antt =====
-- iosCtl/iosCtl.c, `trigCtl`: the first rounds after the lines are set up.
use vision_box_dual_cam.Base.{
  arith, ℕ, ◌≡◌, ◌≤◌, refl, streq_refl, true, false, ltb, leb, ◌-◌, List, [], ◌∷◌,
}
use vision_box_dual_cam.Base.Int.{pos}
use vision_box_dual_cam.Io.Sysfs.{Os}
use vision_box_dual_cam.Io.Gpio.{get_value}
use vision_box_dual_cam.Trigger.{
  Input, di1, line, index, agrees, is_steady, Wires, Round, Watch, inputs, take_edges, confirm,
  confirm_pin, debounce, do_trigger, set_up, edges_differ, trig_round,
}

early : (d : ℕ) → 51000000 ≤ d → ltb d 50000000 ≡ false
early d h = ground arith

le→leb : (a b : ℕ) → a ≤ b → leb a b ≡ true
le→leb a b h = ground arith

module _ (w : Wires) (r : Round) where
  edges_differ-set_up : (os : Os) (s : Watch) → edges_differ w (set_up w os s) ≡ false
  unfolding edges_differ set_up
  edges_differ-set_up os s =
      rw
        (
          streq_refl (w.trig_edge 0),
          streq_refl (w.trig_edge 1),
          streq_refl (w.trig_edge 2),
          streq_refl (w.trig_edge 3),
        )
        refl

  take_edges-none :
      (is : List Input) (s : Watch) → ((i : Input) → r.pollpri i ≡ false) → take_edges w r is s ≡ s
  unfolding take_edges
  take_edges-none [] s h = refl
  take_edges-none (i ∷ is) s h = rw (h i) (take_edges-none is s h)

  debounce-first :
      (s : Watch)
      → s.debounce_pin ≡ 0
      → s.debounce_counter ≡ pos 0
      → 51000000 ≤ r.now_end - s.start
      → r.now_end - s.start ≤ 52000000
      → debounce w r s ≡ confirm w r di1 di1 s
  unfolding debounce confirm_pin is_steady line
  debounce-first s p c l u =
      rw (early (r.now_end - s.start) l, le→leb _ _ l, le→leb _ _ u, c, p) refl

-- A round 51 to 52 milliseconds after the time that `start` holds when the lines are set up raises a
-- trigger without any edge if input 1 has the level after its configured edge: the thread's number for
-- "no input yet" is the number of that input.
pub set_up-unprompted :
    (w : Wires) (r : Round) (os : Os) (s0 : Watch)
    → r.tear_down ≡ false
    → r.poll_fails ≡ false
    → ((i : Input) → r.pollpri i ≡ false)
    → 51000000 ≤ r.now_end - s0.start
    → r.now_end - s0.start ≤ 52000000
    → agrees (w.trig_edge 0) (get_value r.os_check 0 r.stack_ch s0.rvalue (set_up w os s0).sysfs).1
      ≡ true
    → trig_round w r (set_up w os s0) ≡ (
      true,
      do_trigger w (record (set_up w os s0) {
        rvalue = (get_value r.os_check 0 r.stack_ch s0.rvalue (set_up w os s0).sysfs).1;
      }),
    )
unfolding trig_round set_up confirm line index
set_up-unprompted w r os s0 t f n l u a =
    rw
      (
        t,
        f,
        edges_differ-set_up w r os s0,
        take_edges-none w r inputs (set_up w os s0) n,
        debounce-first w r (set_up w os s0) refl refl l u,
        a,
      )
      refl
