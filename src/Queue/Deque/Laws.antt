-- ===== src/Queue/Deque/Laws.antt =====
-- The shared bodies do what the list specification says.
use vision_box_dual_cam.Base.{◌≡◌, refl, ◌↔◌, true, List, [], ◌∷◌}
use vision_box_dual_cam.Queue.Deque.{en_q, de_q, is_empty, get_size}
use vision_box_dual_cam.Queue.Fifo.{push, pop}

module _ {A : Type 0} where
  pub en_q-push : (a : A) (q : List A) → en_q a q ≡ push a q
  unfolding en_q push
  en_q-push a q = refl

  pub de_q-pop : (q : List A) → de_q q ≡ pop q
  unfolding de_q pop
  de_q-pop [] = refl
  de_q-pop (a ∷ q) = refl

  pub is_empty_iff : (q : List A) → (is_empty q ≡ true) ↔ (get_size q ≡ 0)
  unfolding is_empty get_size
  is_empty_iff [] = ((λ _. refl), (λ _. refl))
  is_empty_iff (a ∷ q) = ((λ h. cc), (λ h. cc))
