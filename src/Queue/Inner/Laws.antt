-- ===== src/Queue/Inner/Laws.antt =====
-- The families of `innerQ` functions fill the queue interface.
use vision_box_dual_cam.Base.{◌≡◌, String, Bool, true, false, arith}
use vision_box_dual_cam.Base.Camera.{Camera, at, camera_1, camera_2}
use vision_box_dual_cam.Queue.Deque.Laws.{en_q-push, de_q-pop}
use vision_box_dual_cam.Queue.Fifo
use vision_box_dual_cam.Queue.Interface.{QueueApi}
use vision_box_dual_cam.Queue.Inner.{
  InnerQueues, main_en_q, main_de_q, ips_en_q, ips_de_q, ips_dual_en_q, ips_dual_de_q, ios_en_q,
  ios_de_q,
}

pub ips_dual_en_q_lem :
    (id : Camera) (msg : String) (s : InnerQueues)
    → ((ips_dual_en_q id msg s).0, at id (ips_dual_en_q id msg s).1.ips_dual)
      ≡ Fifo.push msg (at id s.ips_dual)
unfolding ips_dual_en_q
ips_dual_en_q_lem camera_1 msg s = en_q-push msg s.ips_dual.first
ips_dual_en_q_lem camera_2 msg s = en_q-push msg s.ips_dual.second

pub ips_dual_de_q_lem :
    (id : Camera) (s : InnerQueues)
    → ((ips_dual_de_q id s).0, (ips_dual_de_q id s).1, at id (ips_dual_de_q id s).2.ips_dual)
      ≡ Fifo.pop (at id s.ips_dual)
unfolding ips_dual_de_q
ips_dual_de_q_lem camera_1 s = de_q-pop s.ips_dual.first
ips_dual_de_q_lem camera_2 s = de_q-pop s.ips_dual.second

abbrev pub main_api : QueueApi InnerQueues String
unfolding main_en_q main_de_q
main_api = record {
  en_q = main_en_q;
  de_q = main_de_q;
  contents = λ s. s.main;
  en_q_lem = λ msg s. en_q-push msg s.main;
  de_q_lem = λ s. de_q-pop s.main;
}

abbrev pub ips_api : QueueApi InnerQueues String
unfolding ips_en_q ips_de_q
ips_api = record {
  en_q = ips_en_q;
  de_q = ips_de_q;
  contents = λ s. s.ips;
  en_q_lem = λ msg s. en_q-push msg s.ips;
  de_q_lem = λ s. de_q-pop s.ips;
}

abbrev pub ips_dual_api : Camera → QueueApi InnerQueues String
ips_dual_api id = record {
  en_q = ips_dual_en_q id;
  de_q = ips_dual_de_q id;
  contents = λ s. at id s.ips_dual;
  en_q_lem = ips_dual_en_q_lem id;
  de_q_lem = ips_dual_de_q_lem id;
}

abbrev pub ios_api : QueueApi InnerQueues String
unfolding ios_en_q ios_de_q
ios_api = record {
  en_q = ios_en_q;
  de_q = ios_de_q;
  contents = λ s. s.ios;
  en_q_lem = λ msg s. en_q-push msg s.ios;
  de_q_lem = λ s. de_q-pop s.ios;
}

-- The queues of the module, by the variable that holds them.
pub data Family : Type 0 where
  main ips ios : Family
  ips_dual : Camera → Family

unfoldable pub api : Family → QueueApi InnerQueues String
unfolding main_en_q main_de_q ips_en_q ips_de_q ios_en_q ios_de_q
api main = main_api
api ips = ips_api
api ios = ios_api
api (ips_dual id) = ips_dual_api id

abbrev pub apart : Family → Family → Bool
apart main main = false
apart ips ips = false
apart ios ios = false
apart (ips_dual camera_1) (ips_dual camera_1) = false
apart (ips_dual camera_2) (ips_dual camera_2) = false
apart _ _ = true

-- A call on one message queue changes no other: neither an enqueue nor a dequeue of a family
-- touches the deque of another family, nor that of the other camera.
inner_queues_apart :
    (f g : Family) (msg : String) (s : InnerQueues)
    → apart f g ≡ true
    → ((api g).contents ((api f).en_q msg s).1 ≡ (api g).contents s)
      × ((api g).contents ((api f).de_q s).2 ≡ (api g).contents s)
unfolding api main_en_q main_de_q ips_en_q ips_de_q ips_dual_en_q ips_dual_de_q ios_en_q ios_de_q
inner_queues_apart f g msg s h = ground arith
