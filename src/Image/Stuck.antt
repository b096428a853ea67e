-- ===== src/Image/Stuck.antt =====
-- The image process seen from outside: what waits for it, and what it keeps for the next run.
use vision_box_dual_cam.Base.{
  ◌≤◌, ◌≡◌, refl, sym, ap, ◌∙◌, subst, true, List, [], ◌∷◌, ◌++◌, append_assoc, append-nil, arith,
}
use vision_box_dual_cam.Base.Camera.{Camera}
use vision_box_dual_cam.Queue.Algo.{Task, ExpansionMode}
use vision_box_dual_cam.Io.Sysfs.{Os}
use vision_box_dual_cam.Algo.Assign.{Commands}
use vision_box_dual_cam.Flow.State.{Box}
use vision_box_dual_cam.Image.{Methods, Image}
use vision_box_dual_cam.Image.Auto.{auto_run}
use vision_box_dual_cam.Image.Normal.{
  Outcome, continues, breaks, note_modes, record_task, take_task,
}

module _ {W Json : Type 0} (methods : Methods W) (os : Os) (cmds : Commands Json) where
  -- The image thread runs the trigger command on the queues and flags that it shares with the handlers.
  abbrev pub after_run : Camera → Task → ExpansionMode → Image W → Box → Box
  after_run c trig mode s b =
      let s' : Image W =
        auto_run methods c trig mode (record s { inner = b.inner; threads = b.threads }) in
      record b { inner = s'.inner; threads = s'.threads }

-- Neither the auto running nor the trigger command, which are the first two rows of the table.
abbrev pub AllWork : List Task → Type 0
AllWork [] = Unit
AllWork (t ∷ ts) = (2 ≤ t.method) × AllWork ts

abbrev pub firsts : List (Task × ExpansionMode) → List Task
firsts [] = []
firsts ((t, m) ∷ ts) = t ∷ firsts ts

module _ {W : Type 0} (methods : Methods W) where
  -- Rounds of the loop, each with its own mode, as long as they do not leave it.
  unfoldable pub take_tasks : Camera → List (Task × ExpansionMode) → Image W → Outcome × Image W
  take_tasks id [] s = (continues, s)
  take_tasks id ((t, m) ∷ ts) s =
      let (o, s1) = take_task methods id t m s in
      let rest = take_tasks id ts s1 in elim o [ continues ↦ rest | breaks ↦ (breaks, s1) ]

  one_recorded :
      (id : Camera) (t : Task) (m : ExpansionMode) (s : Image W)
      → 2 ≤ t.method
      → s.enb_trigger_mode ≡ true
      → s.prev_trigger_mode ≡ true
      → take_task methods id t m s ≡ (continues, record s { recorded = s.recorded ++ (t ∷ []) })
  unfolding take_task note_modes record_task
  one_recorded id t m s h e p = ground arith

  goes_on :
      (p : Outcome × Image W) (rest : Image W → Outcome × Image W) (s1 : Image W)
      → p ≡ (continues, s1)
      → elim p.0 as (λ _. Outcome × Image W) [ continues ↦ rest p.1 | breaks ↦ (breaks, p.1) ]
        ≡ rest s1
  goes_on p rest s1 h =
      subst
        (λ (q : Outcome × Image W).
          elim q.0 as (λ _. Outcome × Image W) [ continues ↦ rest q.1 | breaks ↦ (breaks, q.1) ]
          ≡ rest q.1)
        (sym h) refl
      ∙ ap (λ (q : Outcome × Image W). rest q.1) h

  -- While the trigger mode is on, the commands of any list, other than the two mode commands, are recorded
  -- in their order behind those that are there, and nothing else happens: none of them is run or answered.
  take_tasks-recorded :
      (id : Camera) (ts : List (Task × ExpansionMode)) (s : Image W)
      → AllWork (firsts ts)
      → s.enb_trigger_mode ≡ true
      → s.prev_trigger_mode ≡ true
      → take_tasks id ts s ≡ (continues, record s { recorded = s.recorded ++ firsts ts })
  unfolding take_tasks
  take_tasks-recorded id [] s a e p = rw (append-nil s.recorded) refl
  take_tasks-recorded id ((t, m) ∷ ts) s (h, a) e p =
      goes_on (take_task methods id t m s) (take_tasks id ts)
        (record s { recorded = s.recorded ++ (t ∷ []) }) (one_recorded id t m s h e p)
      ∙ (take_tasks-recorded id ts (record s { recorded = s.recorded ++ (t ∷ []) }) a e p
          ∙ ap (λ q. (continues, record s { recorded = q }))
              (append_assoc s.recorded (t ∷ []) (firsts ts)))
