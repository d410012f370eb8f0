-- ===== src/Manager/Loop.antt =====
-- The event loop of src/ChatManager.cpp, which hands connections to the threads of src/ThreadWorker.cpp
-- through the work queue.
use thunder_chat.Prelude.{ℕ, Option, List, [], ◌∷◌, Bool, false, ◌≡◌, ◌==◌, if◌then◌else◌}
use thunder_chat.Prelude.Int.{ℤ, at_least}
use thunder_chat.Client.{set_access_time}
use thunder_chat.ChatServer.{Fresh}
use thunder_chat.Listing.{is_listed}
use thunder_chat.Manager.{ClientChatServer}
use thunder_chat.Manager.Accounts.{
  ChatManager, server_pointer, create_manager, accept_server, close_server,
}
use thunder_chat.EventLoop.{
  Connections, Event, EventLoop, Outcome, add_client, handle_event, dispatch, take_client,
  finish_closed, finish_rearmed, new_loop,
}
use thunder_chat.EventLoop.Steps.{Reach}

-- `SetAccessTime` of the connection at an address.
unfoldable pub touch_server : ℕ → ℕ → List ClientChatServer → List ClientChatServer
touch_server p now [] = []
touch_server p now (s ∷ ss) =
    (if server_pointer s == p then record s { client = set_access_time s.client now } else s)
    ∷ touch_server p now ss

abbrev pub served : ℕ → ChatManager → Bool
served p m = is_listed server_pointer p m.servers

abbrev pub server_connections : Connections ChatManager
server_connections = record {
  alive = served;
  close = close_server;
  touch = λ p now m. record m { servers = touch_server p now m.servers };
}

-- What `Run` does with an accepted socket, with its `AddClient`.
unfoldable pub accept_in_loop : EventLoop ChatManager → ℕ → ℕ → Bool → Fresh → EventLoop ChatManager
accept_in_loop l fd memory for_servers new = record l {
  server = accept_server l.server fd memory for_servers new;
  interest =
      if at_least l.server.conn_count l.server.max_user
      then l.interest
      else if for_servers
      then add_client new.added new.pointer l.interest
      else l.interest;
}

-- What `Run` does with an event of another connection, and with all that are left.
abbrev pub handle_server_event : EventLoop ChatManager → Event → ℕ → Outcome ChatManager
handle_server_event = handle_event server_connections

abbrev pub dispatch_server_event : EventLoop ChatManager → ℕ → Outcome ChatManager
dispatch_server_event = dispatch server_connections

-- `GetWorkQueue` of a worker thread, and the two ends of its round.
abbrev pub take_server : EventLoop ChatManager → Option (EventLoop ChatManager)
take_server = take_client server_connections

abbrev pub finish_server_closed : EventLoop ChatManager → ℕ → Option (EventLoop ChatManager)
finish_server_closed = finish_closed server_connections

abbrev pub finish_server_rearmed : EventLoop ChatManager → ℕ → Bool → EventLoop ChatManager
finish_server_rearmed = finish_rearmed server_connections

-- A new object has an address of its own.
pub data EntersManager (l : EventLoop ChatManager) : EventLoop ChatManager → Type 0 where
  server_accepted :
      (fd memory : ℕ) (for_servers : Bool) (new : Fresh)
      → served new.pointer l.server ≡ false
      → EntersManager l (accept_in_loop l fd memory for_servers new)

-- The states of a manager with a limit of connections, whose work queue starts in some memory.
abbrev pub Serves : ℤ → List ℕ → EventLoop ChatManager → Type 0
Serves max_user memory =
    Reach server_connections EntersManager (new_loop (create_manager max_user) memory)
