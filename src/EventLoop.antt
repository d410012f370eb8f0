-- ===== src/EventLoop.antt =====
-- The event loop that src/ChatServer.cpp and src/ChatManager.cpp share, up to the names: what `Run` does with
-- the events of src/IOMP_EPoll.cpp, and how it hands connections to threads through a queue. A connection
-- is named by the address of its object. The lines are those of src/ChatServer.cpp; ChatServer/Loop.antt and
-- Manager/Loop.antt supply what the two servers do with their lists.
pub mod Holders
pub mod Steps
pub mod Handling
pub mod Ownership
pub mod Safety
use thunder_chat.Prelude.{
  ℕ, Option, none, some, List, [], ◌∷◌, Bool, true, false, ◌==◌, if◌then◌else◌, ◌>>=◌,
}
use thunder_chat.CircularQueue.{CircularQueue, create, enqueue, dequeue}

-- What the loop calls of a server whose state is `S`: whether the object at an address is one of its
-- connections, `CloseClient`, and `SetAccessTime`.
pub record Connections (S : Type 0) : Type 0 where
  pub alive : ℕ → S → Bool
  pub close : S → ℕ → Option S
  pub touch : ℕ → ℕ → S → S

-- An entry of the array that `epoll_wait` fills: `failed` is EPOLLERR or EPOLLHUP, `readable` EPOLLIN.
pub record Event : Type 0 where
  pub client : ℕ
  pub failed : Bool
  pub readable : Bool

-- `interest` are the connections registered with epoll; `working` those that threads hold; `lost` those
-- that a thread could not register again; `pending` what is left of the array of events.
pub record EventLoop (S : Type 0) : Type 0 where
  pub server : S
  pub interest : List ℕ
  pub receive_queue : CircularQueue ℕ
  pub working : List ℕ
  pub lost : List ℕ
  pub pending : List Event

-- A server before the first connection, with an empty queue.
abbrev pub new_loop : {S : Type 0} → S → List ℕ → EventLoop S
new_loop s memory = record {
  server = s;
  interest = [];
  receive_queue = create memory;
  working = [];
  lost = [];
  pending = [];
}

-- One occurrence taken out.
unfoldable pub take_out : ℕ → List ℕ → List ℕ
take_out p [] = []
take_out p (q ∷ qs) = let rest = take_out p qs in if q == p then qs else q ∷ rest

-- `AddClient` (EPOLL_CTL_ADD) and `DelClient` (EPOLL_CTL_DEL), of which nothing else stays.
unfoldable pub add_client : Bool → ℕ → List ℕ → List ℕ
add_client added p interest = if added then p ∷ interest else interest

-- How the handling of an event ends: done; waiting for room in the queue; or with a call through a
-- pointer to an object that has been deleted.
pub data Outcome (S : Type 0) : Type 0 where
  done : EventLoop S → Outcome S
  waiting : Outcome S
  crashed : Outcome S

module _ {S : Type 0} (ops : Connections S) where
  unfoldable pub close_event : EventLoop S → ℕ → Outcome S
  close_event l p = elim (ops.close l.server p) [
    | none ↦ crashed
    | some server ↦ done (record l { server = server; interest = take_out p l.interest })
  ]

  unfoldable pub read_event : EventLoop S → ℕ → ℕ → Outcome S
  read_event l p now = elim (enqueue l.receive_queue p) [
    | none ↦ waiting
    | some queue ↦ done (record l {
      server = ops.touch p now l.server;
      interest = take_out p l.interest;
      receive_queue = queue;
    })
  ]

  -- The body of the loop over the events, for a connection that is not a server socket.
  unfoldable pub handle_event : EventLoop S → Event → ℕ → Outcome S
  handle_event l e now =
      if ops.alive e.client l.server
      then if e.failed
        then close_event l e.client
        else if e.readable
        then read_event l e.client now
        else done l
      else crashed

  unfoldable pub dispatch : EventLoop S → ℕ → Outcome S
  dispatch l now = elim l.pending [
    | [] ↦ waiting
    | e ∷ es ↦ handle_event (record l { pending = es }) e now
  ]

  -- A thread takes a connection from the queue; `none` waits.
  unfoldable pub take_client : EventLoop S → Option (EventLoop S)
  take_client l = dequeue l.receive_queue >>= λ (p, queue).
      some (record l { receive_queue = queue; working = p ∷ l.working })

  -- The end of a round that closes the connection: `CloseClient`.
  unfoldable pub finish_closed : EventLoop S → ℕ → Option (EventLoop S)
  finish_closed l p = ops.close l.server p >>= λ server.
      some (record l { server = server; working = take_out p l.working })

  -- The end of any other round: `AddEPoll`, whose failure nobody looks at.
  unfoldable pub finish_rearmed : EventLoop S → ℕ → Bool → EventLoop S
  finish_rearmed l p added = record l {
    working = take_out p l.working;
    interest = add_client added p l.interest;
    lost = add_client (if added then false else true) p l.lost;
  }
