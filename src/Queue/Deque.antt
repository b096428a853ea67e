-- ===== src/Queue/Deque.antt =====
-- `std::deque` as the queues use it, and the body that every enqueue and dequeue function shares.
-- A function holds the queue's mutex from its first to its last access, so one call is one step.
pub mod Laws
use vision_box_dual_cam.Base.{Bool, true, false, Option, none, some, List, [], ◌∷◌, ◌++◌, ℕ, length}
use vision_box_dual_cam.Base.Int.{ℤ, success, failure}

module _ {A : Type 0} where
  -- `push_back`, and the result 0.
  unfoldable pub en_q : A → List A → ℤ × List A
  en_q a q = (success, q ++ (a ∷ []))

  -- The result, what is written through the pointer argument, if anything is, and the queue.
  unfoldable pub de_q : List A → ℤ × Option A × List A
  de_q [] = (failure, none, [])
  de_q (a ∷ q) = (success, some a, q)

  unfoldable pub is_empty : List A → Bool
  is_empty [] = true
  is_empty (a ∷ q) = false

  unfoldable pub get_size : List A → ℕ
  get_size q = length q
