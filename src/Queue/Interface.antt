-- ===== src/Queue/Interface.antt =====
-- The interface that each queue family fills: its functions over the state that holds it, and the
-- laws that tie them to the list of messages in the queue. The clients rely on the laws only.
use vision_box_dual_cam.Base.{
  ℕ, zero, suc, ◌≡◌, refl, sym, ap, ap₂, ◌∙◌, Option, none, some, List, [], ◌∷◌, ◌++◌, append-nil,
  append_assoc, length,
}
use vision_box_dual_cam.Base.Int.{ℤ, success, failure}
use vision_box_dual_cam.Queue.Fifo
use vision_box_dual_cam.Queue.Fifo.{Op, put, take, Reply, stored, taken}

-- The messages that a run of dequeues hands out when every call finds one.
abbrev pub somes : {A : Type 0} → List A → List (Option A)
somes [] = []
somes (a ∷ ms) = some a ∷ somes ms

pub record QueueApi (S A : Type 0) : Type 0 where
  pub en_q : A → S → ℤ × S
  pub de_q : S → ℤ × Option A × S
  pub contents : S → List A
  pub en_q_lem : (a : A) (s : S) → ((en_q a s).0, contents (en_q a s).1) ≡ Fifo.push a (contents s)
  pub de_q_lem : (s : S) → ((de_q s).0, (de_q s).1, contents (de_q s).2) ≡ Fifo.pop (contents s)

module _ {S A : Type 0} (api : QueueApi S A) where
  open api use {en_q, de_q, contents, en_q_lem, de_q_lem}

  unfoldable pub run : S → List (Op A) → List (Reply A) × S
  run s [] = ([], s)
  run s (put a ∷ ops) = let (rs, s') = run (en_q a s).1 ops in (stored (en_q a s).0 ∷ rs, s')
  run s (take ∷ ops) = let (rs, s') = run (de_q s).2 ops in (taken (de_q s).0 (de_q s).1 ∷ rs, s')

  -- Whatever sequence of calls the threads make, each call gets the reply of the list
  -- specification, and the queue holds what the list holds at the end.
  pub run_refines :
      (s : S) (ops : List (Op A))
      → ((run s ops).0, contents (run s ops).1) ≡ Fifo.run (contents s) ops
  unfolding run Fifo.run
  run_refines s [] = refl
  run_refines s (put a ∷ ops) = rw (← en_q_lem a s) (rw (← run_refines (en_q a s).1 ops))
  run_refines s (take ∷ ops) = rw (← de_q_lem s) (rw (← run_refines (de_q s).2 ops))

  -- Enqueue a whole list of messages, in order.
  unfoldable pub en_q_all : List A → S → S
  en_q_all [] s = s
  en_q_all (a ∷ ms) s = en_q_all ms (en_q a s).1

  -- Dequeue a given number of times, and keep what each call hands out.
  unfoldable pub de_q_times : ℕ → S → List (Option A) × S
  de_q_times zero s = ([], s)
  de_q_times (suc n) s = let (rest, s') = de_q_times n (de_q s).2 in ((de_q s).1 ∷ rest, s')

  pub contents-en_q : (a : A) (s : S) → contents (en_q a s).1 ≡ contents s ++ (a ∷ [])
  unfolding Fifo.push
  contents-en_q a s = ap (λ p. p.1) (en_q_lem a s)

  pub de_q-cons :
      (a : A) (q : List A) (s : S)
      → contents s ≡ a ∷ q
      → ((de_q s).0 ≡ success) × ((de_q s).1 ≡ some a) × (contents (de_q s).2 ≡ q)
  unfolding Fifo.pop
  de_q-cons a q s h =
      let e = de_q_lem s ∙ ap Fifo.pop h in (ap (λ p. p.0) e, ap (λ p. p.1) e, ap (λ p. p.2) e)

  pub de_q-nil :
      (s : S)
      → contents s ≡ []
      → ((de_q s).0 ≡ failure) × ((de_q s).1 ≡ none) × (contents (de_q s).2 ≡ [])
  unfolding Fifo.pop
  de_q-nil s h =
      let e = de_q_lem s ∙ ap Fifo.pop h in (ap (λ p. p.0) e, ap (λ p. p.1) e, ap (λ p. p.2) e)

  contents-en_q_all : (ms : List A) (s : S) → contents (en_q_all ms s) ≡ contents s ++ ms
  unfolding en_q_all
  contents-en_q_all [] s = rw append-nil
  contents-en_q_all (a ∷ ms) s =
      rw (contents-en_q_all ms (en_q a s).1, contents-en_q a s)
        (append_assoc (contents s) (a ∷ []) ms)

  de_q_times_lem :
      (ms bs : List A) (s : S)
      → contents s ≡ ms ++ bs
      → ((de_q_times (length ms) s).0 ≡ somes ms) × (contents (de_q_times (length ms) s).1 ≡ bs)
  unfolding de_q_times
  de_q_times_lem [] bs s h = (refl, h)
  de_q_times_lem (a ∷ ms) bs s h =
      let (code, out, left) = de_q-cons a (ms ++ bs) s h in
      let (outs, rest) = de_q_times_lem ms bs (de_q s).2 left in (ap₂ ◌∷◌ out outs, rest)

  -- From a state whose queue is empty: the messages of any list, enqueued in order, come out of as
  -- many dequeues in the same order, every one of them, and the queue is empty again.
  pub fifo_delivery :
      (ms : List A) (s : S)
      → contents s ≡ []
      → let (outs, s') = de_q_times (length ms) (en_q_all ms s) in
        (outs ≡ somes ms) × (contents s' ≡ [])
  fifo_delivery ms s empty =
      de_q_times_lem ms [] (en_q_all ms s)
        (contents-en_q_all ms s ∙ (ap (λ q. q ++ ms) empty ∙ sym (append-nil ms)))
