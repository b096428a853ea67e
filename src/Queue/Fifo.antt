-- ===== src/Queue/Fifo.antt =====
-- What a queue promises its clients: a first-in first-out list, over whole call sequences.
use vision_box_dual_cam.Base.{Option, none, some, List, [], ◌∷◌, ◌++◌}
use vision_box_dual_cam.Base.Int.{ℤ, success, failure}

-- A call that a thread can make, and what it sees of it.
pub data Op (A : Type 0) : Type 0 where
  put : A → Op A
  take : Op A

pub data Reply (A : Type 0) : Type 0 where
  stored : ℤ → Reply A
  taken : ℤ → Option A → Reply A

module _ {A : Type 0} where
  -- A message goes in at the end. The call cannot fail.
  unfoldable pub push : A → List A → ℤ × List A
  push a q = (success, q ++ (a ∷ []))

  -- The oldest message comes out. The call fails on an empty queue and leaves it empty.
  unfoldable pub pop : List A → ℤ × Option A × List A
  pop [] = (failure, none, [])
  pop (a ∷ q) = (success, some a, q)

  -- The calls of all threads, in the order in which they get the mutex.
  unfoldable pub run : List A → List (Op A) → List (Reply A) × List A
  run q [] = ([], q)
  run q (put a ∷ ops) = let (rs, q') = run (push a q).1 ops in (stored (push a q).0 ∷ rs, q')
  run q (take ∷ ops) = let (rs, q') = run (pop q).2 ops in (taken (pop q).0 (pop q).1 ∷ rs, q')
