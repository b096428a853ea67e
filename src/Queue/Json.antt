-- ===== src/Queue/Json.antt =====
-- ipsCtl/IPS_CompFunction.c: the queues of parsed camera commands, `JsonQ`, for the single camera and
-- for each of the two; iosCtl/IOS_CompFunction.c: the queue of parsed IO commands, `IO_JsonQ`.
pub mod Laws
use vision_box_dual_cam.Base.{ℕ, String, Bool, Option, List, []}
use vision_box_dual_cam.Base.Int.{ℤ}
use vision_box_dual_cam.Base.Camera.{Camera, Dual, at, put_at}
use vision_box_dual_cam.Queue.Deque

-- `seJsonInfo` of ipsCtl/IPS_MethodStructureDef.h, and `seIO_JsonInfo` of
-- iosCtl/IOS_MethodStructureDef.h, which has the same fields over the enum of the IO commands.
pub record JsonInfo : Type 0 where
  pub algo_id : ℕ
  pub cmd : String
  pub json_buf : String

pub record JsonQueues : Type 0 where
  pub json : List JsonInfo  -- BufQueue_Json
  pub json_dual : Dual (List JsonInfo)  -- BufQueue_Dual_Json
  pub io_json : List JsonInfo  -- BufQueue_IO_Json

unfoldable pub json_en_q : JsonInfo → JsonQueues → ℤ × JsonQueues
json_en_q x s = let (res, q) = Deque.en_q x s.json in (res, record s { json = q })

unfoldable pub json_de_q : JsonQueues → ℤ × Option JsonInfo × JsonQueues
json_de_q s = let (res, out, q) = Deque.de_q s.json in (res, out, record s { json = q })

unfoldable pub json_dual_en_q : Camera → JsonInfo → JsonQueues → ℤ × JsonQueues
json_dual_en_q id x s =
    let (res, q) = Deque.en_q x (at id s.json_dual) in
    (res, record s { json_dual = put_at id q s.json_dual })

unfoldable pub json_dual_de_q : Camera → JsonQueues → ℤ × Option JsonInfo × JsonQueues
json_dual_de_q id s =
    let (res, out, q) = Deque.de_q (at id s.json_dual) in
    (res, out, record s { json_dual = put_at id q s.json_dual })

unfoldable pub io_json_en_q : JsonInfo → JsonQueues → ℤ × JsonQueues
io_json_en_q x s = let (res, q) = Deque.en_q x s.io_json in (res, record s { io_json = q })

unfoldable pub io_json_de_q : JsonQueues → ℤ × Option JsonInfo × JsonQueues
io_json_de_q s = let (res, out, q) = Deque.de_q s.io_json in (res, out, record s { io_json = q })

unfoldable pub io_json_get_size : JsonQueues → ℕ
io_json_get_size s = Deque.get_size s.io_json

unfoldable pub io_json_is_empty : JsonQueues → Bool
io_json_is_empty s = Deque.is_empty s.io_json
