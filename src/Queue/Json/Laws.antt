-- ===== src/Queue/Json/Laws.antt =====
-- The command queues fill the queue interface.
use vision_box_dual_cam.Base.{◌≡◌, List, [], length}
use vision_box_dual_cam.Base.Camera.{Camera, camera_1, camera_2, at}
use vision_box_dual_cam.Queue.Deque.Laws.{en_q-push, de_q-pop}
use vision_box_dual_cam.Queue.Fifo
use vision_box_dual_cam.Queue.Interface.{QueueApi, de_q_times, en_q_all, somes, fifo_delivery}
use vision_box_dual_cam.Queue.Json.{
  JsonQueues, JsonInfo, json_en_q, json_de_q, json_dual_en_q, json_dual_de_q, io_json_en_q,
  io_json_de_q,
}

unfoldable pub json_api : QueueApi JsonQueues JsonInfo
unfolding json_en_q json_de_q
json_api = record {
  en_q = json_en_q;
  de_q = json_de_q;
  contents = λ s. s.json;
  en_q_lem = λ x s. en_q-push x s.json;
  de_q_lem = λ s. de_q-pop s.json;
}

pub json_dual_en_q_lem :
    (id : Camera) (x : JsonInfo) (s : JsonQueues)
    → ((json_dual_en_q id x s).0, at id (json_dual_en_q id x s).1.json_dual)
      ≡ Fifo.push x (at id s.json_dual)
unfolding json_dual_en_q
json_dual_en_q_lem camera_1 x s = en_q-push x s.json_dual.first
json_dual_en_q_lem camera_2 x s = en_q-push x s.json_dual.second

pub json_dual_de_q_lem :
    (id : Camera) (s : JsonQueues)
    → ((json_dual_de_q id s).0, (json_dual_de_q id s).1, at id (json_dual_de_q id s).2.json_dual)
      ≡ Fifo.pop (at id s.json_dual)
unfolding json_dual_de_q
json_dual_de_q_lem camera_1 s = de_q-pop s.json_dual.first
json_dual_de_q_lem camera_2 s = de_q-pop s.json_dual.second

unfoldable pub json_dual_api : Camera → QueueApi JsonQueues JsonInfo
json_dual_api id = record {
  en_q = json_dual_en_q id;
  de_q = json_dual_de_q id;
  contents = λ s. at id s.json_dual;
  en_q_lem = json_dual_en_q_lem id;
  de_q_lem = json_dual_de_q_lem id;
}

unfoldable pub io_json_api : QueueApi JsonQueues JsonInfo
unfolding io_json_en_q io_json_de_q
io_json_api = record {
  en_q = io_json_en_q;
  de_q = io_json_de_q;
  contents = λ s. s.io_json;
  en_q_lem = λ x s. en_q-push x s.io_json;
  de_q_lem = λ s. de_q-pop s.io_json;
}

-- The queues of the module, by the variable that holds them.
pub data Family : Type 0 where
  json io_json : Family
  json_dual : Camera → Family

unfoldable pub api : Family → QueueApi JsonQueues JsonInfo
unfolding json_api json_dual_api io_json_api
api json = json_api
api io_json = io_json_api
api (json_dual id) = json_dual_api id

-- From a state in which one of the command queues is empty: the commands of any list, enqueued in
-- order on that queue, come out of as many dequeues, every one of them and in the same order, and
-- the queue is empty again.
json_delivery :
    (f : Family) (cmds : List JsonInfo) (s : JsonQueues)
    → (api f).contents s ≡ []
    → ((de_q_times (api f) (length cmds) (en_q_all (api f) cmds s)).0 ≡ somes cmds)
      × ((api f).contents (de_q_times (api f) (length cmds) (en_q_all (api f) cmds s)).1 ≡ [])
json_delivery f cmds s empty = fifo_delivery (api f) cmds s empty
