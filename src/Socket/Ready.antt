-- ===== src/Socket/Ready.antt =====
-- A server in which the sender core has data for a worker that will ask for it.
use server_unit.Base.{true, ℕ, ◌≤◌, ◌≡◌, refl, some, List, [], ◌∷◌, String, arith, length, done}
use server_unit.Double.{DoubleLib}
use server_unit.Json.{JsonLib}
use server_unit.Sink.{SinkItem}
use server_unit.Sink.Order.{HasRoom}
use server_unit.Worker.{OutgoingDataState, Worker}
use server_unit.Worker.Delivery.{IsIdle}
use server_unit.Registry.{Entry, get_worker_from_uid, find_uid, find_worker, put_worker}
use server_unit.Outgoing.Status.{Tracks}
use server_unit.State.{Server, UserDataTable, with_worker}
use server_unit.Sender.Ideal.{find_ideal_worker}
use server_unit.Sender.Packets.{user_data_to_json}
use server_unit.Sender.Deliver.{OnTop}
use server_unit.Socket.Waiting.{Stands, Stands-with_worker}
use server_unit.Socket.Receive.{PoolHasRoom, queued}

-- A write to a worker that leaves its identifier.
pub find_uid-put_worker :
    {D : Type 0} (uid : String) (a : ℕ) (w w' : Worker D) (es : List (Entry D))
    → find_worker a es ≡ some w
    → w'.worker_uid ≡ w.worker_uid
    → find_uid uid (put_worker a w' es) ≡ find_uid uid es
unfolding find_uid find_worker put_worker
find_uid-put_worker uid a w w' [] h same = refl
find_uid-put_worker uid a w w' (e ∷ es) h same = ground (arith, find_uid-put_worker uid a w w' es)

pub Stands-queued :
    {J D : Type 0} (a : ℕ) (w w' : Worker D) (items : List (SinkItem J)) (s : Server J D)
    → Stands a w s
    → Stands a w' (queued a w' items s)
unfolding with_worker
Stands-queued a w w' items s st = Stands-with_worker a w w' s st

module _ (J : JsonLib) (F : DoubleLib) (uid : String) where
  open J use {Json}
  open F use {Double}

  -- The hypotheses on the data and on the worker that gets it.
  pub record Ready (a p : ℕ) (top : SinkItem UserDataTable) (u : UserDataTable)
      (rest : List (SinkItem UserDataTable)) (body : Json) (w : Worker Double)
      (st : OutgoingDataState) (s : Server Json Double) : Type 0 where
    pub on_top : OnTop J F top u rest s
    pub ideal : find_ideal_worker F top.sink_item.task_priority s.registry ≡ done (some a)
    pub text : user_data_to_json J u ≡ done body
    pub found : Stands a w s
    pub idle : IsIdle w
    pub unqueued : w.sender_queue ≡ []
    pub acks : length w.ack_pending_queue ≤ 10
    pub tracked : Tracks s.outgoing u.user_table p st
    pub reachable : s.reachable ≡ true
    pub known : get_worker_from_uid uid s.registry ≡ some a
    pub room : HasRoom s.receiver_sink
    pub pool : PoolHasRoom s.task_pool
    pub lock : s.timeout.timeout_list_lock ≡ 1
