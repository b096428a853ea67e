-- ===== src/Queue/Inner.antt =====
-- mainCtl/mainCtl.c: the message queues between the MQTT side, the main loop, the image process and
-- the IO process, `innerQ_Main`, `innerQ_IPS`, `innerQ_IPS_..._Dual` and `innerQ_IOS`.
-- A function returns its `int`, what it writes through its pointer, and the new state.
pub mod Laws
use vision_box_dual_cam.Base.{String, Bool, Option, List, []}
use vision_box_dual_cam.Base.Int.{ℤ}
use vision_box_dual_cam.Base.Camera.{Camera, Dual, at, put_at}
use vision_box_dual_cam.Queue.Deque

pub record InnerQueues : Type 0 where
  pub main : List String  -- buf_innerQ_main
  pub ips : List String  -- buf_innerQ_ips
  pub ips_dual : Dual (List String)  -- buf_innerQ_ips_Dual
  pub ios : List String  -- buf_innerQ_ios

-- The four deques are static, so they start empty.
abbrev pub no_messages : InnerQueues
no_messages = record {
  main = [];
  ips = [];
  ips_dual = record { first = []; second = [] };
  ios = [];
}

unfoldable pub main_en_q : String → InnerQueues → ℤ × InnerQueues
main_en_q msg s = let (res, q) = Deque.en_q msg s.main in (res, record s { main = q })

unfoldable pub main_de_q : InnerQueues → ℤ × Option String × InnerQueues
main_de_q s = let (res, msg, q) = Deque.de_q s.main in (res, msg, record s { main = q })

unfoldable pub main_is_empty : InnerQueues → Bool
main_is_empty s = Deque.is_empty s.main

unfoldable pub ips_en_q : String → InnerQueues → ℤ × InnerQueues
ips_en_q msg s = let (res, q) = Deque.en_q msg s.ips in (res, record s { ips = q })

unfoldable pub ips_de_q : InnerQueues → ℤ × Option String × InnerQueues
ips_de_q s = let (res, msg, q) = Deque.de_q s.ips in (res, msg, record s { ips = q })

unfoldable pub ips_is_empty : InnerQueues → Bool
ips_is_empty s = Deque.is_empty s.ips

unfoldable pub ips_dual_en_q : Camera → String → InnerQueues → ℤ × InnerQueues
ips_dual_en_q id msg s =
    let (res, q) = Deque.en_q msg (at id s.ips_dual) in
    (res, record s { ips_dual = put_at id q s.ips_dual })

unfoldable pub ips_dual_de_q : Camera → InnerQueues → ℤ × Option String × InnerQueues
ips_dual_de_q id s =
    let (res, msg, q) = Deque.de_q (at id s.ips_dual) in
    (res, msg, record s { ips_dual = put_at id q s.ips_dual })

unfoldable pub ips_dual_is_empty : Camera → InnerQueues → Bool
ips_dual_is_empty id s = Deque.is_empty (at id s.ips_dual)

unfoldable pub ios_en_q : String → InnerQueues → ℤ × InnerQueues
ios_en_q msg s = let (res, q) = Deque.en_q msg s.ios in (res, record s { ios = q })

unfoldable pub ios_de_q : InnerQueues → ℤ × Option String × InnerQueues
ios_de_q s = let (res, msg, q) = Deque.de_q s.ios in (res, msg, record s { ios = q })

unfoldable pub ios_is_empty : InnerQueues → Bool
ios_is_empty s = Deque.is_empty s.ios
