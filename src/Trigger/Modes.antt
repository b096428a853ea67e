-- ===== src/Trigger/Modes.antt =====
-- iosCtl/iosCtl.c, `trigCtl`: which requests let a trigger through.
use vision_box_dual_cam.Io.Gpio.{get_value}
use vision_box_dual_cam.Io.Sysfs.{Os}
use vision_box_dual_cam.Base.{
  arith, ℕ, ◌==◌, ◌≡◌, ◌≢◌, refl, ◌∙◌, ap, Bool, false, either, if◌then◌else◌, List, [], ◌∷◌, ltb,
  leb, ◌&&◌, ◌-◌,
}
use vision_box_dual_cam.Base.Camera.{Camera}
use vision_box_dual_cam.Queue.Inner.{InnerQueues}
use vision_box_dual_cam.Trigger.{
  line, index, agrees, is_steady, Input, di1, di2, di3, di4, di_trig1, di_trig2, Wires, Round,
  Watch, Job, inputs, take_edge, take_edges, confirm, confirm_pin, debounce, tell_first,
  tell_second, do_trigger, set_up, close_lines, edges_differ, trig_round, trig_run,
}

-- What the IO process and the clients can see of a trigger.
abbrev Outward : Type 0
Outward = InnerQueues × List (Camera × Job)

abbrev outward : Watch → Outward
outward s = (s.queues, s.published)

-- Nothing of it has changed, and so for the state a step returns beside a Boolean.
unfoldable pub Still : Watch → Watch → Type 0
Still s z = outward z ≡ outward s

unfoldable pub StillAfter : Watch → Bool × Watch → Type 0
unfolding Still
StillAfter s x = Still s x.1

still : (s z : Watch) → outward z ≡ outward s → Still s z
unfolding Still
still s z h = h

pub after : (s : Watch) (x : Bool × Watch) → Still s x.1 → StillAfter s x
unfolding StillAfter
after s x h = h

pub after_inv : (s : Watch) (x : Bool × Watch) → StillAfter s x → Still s x.1
unfolding StillAfter
after_inv s x h = h

pub still_trans : (s z u : Watch) → Still s z → Still z u → Still s u
unfolding Still
still_trans s z u h g = g ∙ h

ne_test : (m n : ℕ) → m ≢ n → (m == n) ≡ false
ne_test m n h = ground arith

module _ (w : Wires) (r : Round) where
  take_edge-Still : (i : Input) (s : Watch) → Still s (take_edge w r i s)
  unfolding take_edge
  take_edge-Still i s =
      either (Still s) (agrees (w.trig_edge (index i)) v) _ _ (still s _ refl) (still s _ refl)
    where
      v : ℕ
      v = (get_value r.os_poll (line i) r.stack_ch s.rvalue s.sysfs).1

  pub take_edges-Still : (is : List Input) (s : Watch) → Still s (take_edges w r is s)
  unfolding take_edges
  take_edges-Still [] s = still s s refl
  take_edges-Still (i ∷ is) s =
      either (Still s) (r.pollpri i) _ _ (take_edge-Still i s) (take_edges-Still is s)

  confirm-Still : (i j : Input) (s : Watch) → StillAfter s (confirm w r i j s)
  unfolding confirm
  confirm-Still i j s = after s _ (still s _ refl)

  confirm_pin-Still : (s : Watch) → StillAfter s (confirm_pin w r s)
  unfolding confirm_pin
  confirm_pin-Still s =
      either (StillAfter s) (s.debounce_pin == line di1) _ _ (confirm-Still di1 di1 s) (
        either (StillAfter s) (s.debounce_pin == line di2) _ _ (confirm-Still di2 di2 s) (
          either (StillAfter s) (s.debounce_pin == line di3) _ _ (confirm-Still di3 di3 s) (
            either (StillAfter s) (s.debounce_pin == line di4) _ _ (confirm-Still di4 di4 s) (
              either (StillAfter s) (s.debounce_pin == line di_trig1) _ _
                (confirm-Still di_trig1 di_trig1 s)
                (either (StillAfter s) (s.debounce_pin == line di_trig2) _ _
                  (confirm-Still di_trig2 di_trig1 s) (after s _ (still s s refl)))))))

  pub debounce-Still : (s : Watch) → StillAfter s (debounce w r s)
  unfolding debounce
  debounce-Still s = either (StillAfter s) (ltb d 50000000) _ _ (after s _ (still s s refl)) (
      either (StillAfter s) (leb 51000000 d && leb d 52000000 && is_steady s.debounce_counter) _ _
        (confirm_pin-Still s)
        (either (StillAfter s) (leb 1000000000 d) _ _ (after s _ (still s _ refl))
          (after s _ (still s s refl))))
    where
      d : ℕ
      d = r.now_end - s.start

  -- The state before `do_trigger`.
  pub debounced-Still : (s : Watch) → Still s (debounce w r (take_edges w r inputs s)).1
  debounced-Still s =
      still_trans s _ _ (take_edges-Still inputs s)
        (after_inv _ _ (debounce-Still (take_edges w r inputs s)))

  do_trigger-Still :
      (s : Watch) → w.trig_din_mode ≢ 1 → w.trig_din_mode_dual ≢ 1 → Still s (do_trigger w s)
  unfolding do_trigger tell_first tell_second
  do_trigger-Still s h g =
      rw (ne_test w.trig_din_mode 1 h, ne_test w.trig_din_mode_dual 1 g) (still s _ refl)

  pub close_lines-Still : (s : Watch) → Still s (close_lines w s)
  unfolding close_lines
  close_lines-Still s = still s _ refl

  pub set_up-Still : (os : Os) (s : Watch) → Still s (set_up w os s)
  unfolding set_up
  set_up-Still os s = still s _ refl

  trig_round-Still :
      (s : Watch) → w.trig_din_mode ≢ 1 → w.trig_din_mode_dual ≢ 1 → StillAfter s (trig_round w r s)
  unfolding trig_round
  trig_round-Still s h g = either (StillAfter s) r.tear_down _ _ closed (
      either (StillAfter s) (edges_differ w s) _ _
        (after s _ (still_trans s _ _ (close_lines-Still s) (set_up-Still r.os_poll _)))
        (either (StillAfter s) r.poll_fails _ _ closed (after s _ polled)))
    where
      closed : StillAfter s (false, close_lines w s)
      closed = after s _ (close_lines-Still s)

      polled : Still s (
          if (debounce w r (take_edges w r inputs s)).0
          then do_trigger w (debounce w r (take_edges w r inputs s)).1
          else (debounce w r (take_edges w r inputs s)).1)
      polled =
          either (Still s) (debounce w r (take_edges w r inputs s)).0 _ _
            (still_trans s _ _ (debounced-Still s) (do_trigger-Still _ h g)) (debounced-Still s)

-- No round of the list finds a request for a trigger of input 1.
abbrev pub AsksElsewhere : List (Wires × Round) → Type 0
AsksElsewhere [] = Unit
AsksElsewhere ((w, r) ∷ rs) =
    ((w.trig_din_mode ≢ 1) × (w.trig_din_mode_dual ≢ 1)) × AsksElsewhere rs

run-Still : (rs : List (Wires × Round)) (s : Watch) → AsksElsewhere rs → Still s (trig_run rs s)
unfolding trig_run
run-Still [] s h = still s s refl
run-Still ((w, r) ∷ rs) s h =
    either (Still s) (trig_round w r s).0 _ _
      (still_trans s _ _ once (run-Still rs (trig_round w r s).1 h.1)) once
  where
    once : Still s (trig_round w r s).1
    once = after_inv s _ (trig_round-Still w r s h.0.0 h.0.1)

-- However often and on whichever inputs edges come, the thread queues no trigger and publishes nothing
-- while neither camera's trigger request names input 1: a request for input 2, 3 or 4 is never served.
pub trig_run-AsksElsewhere :
    (rs : List (Wires × Round)) (s : Watch)
    → AsksElsewhere rs
    → ((trig_run rs s).queues ≡ s.queues) × ((trig_run rs s).published ≡ s.published)
unfolding Still
trig_run-AsksElsewhere rs s h = (ap (λ o. o.0) (run-Still rs s h), ap (λ o. o.1) (run-Still rs s h))
