-- ===== src/ChatServer/Loop.antt =====
-- What the event loop calls of src/ChatServer.cpp, and how its acceptor (src/ThreadAcceptor.cpp) makes
-- connections.
use thunder_chat.Prelude.{
  ℕ, Option, some, List, [], ◌∷◌, Bool, false, ◌≡◌, ◌==◌, if◌then◌else◌, ◌>>=◌,
}
use thunder_chat.Prelude.Int.{pos}
use thunder_chat.Client.{Client, ClientType, client_user, client_chat_manager, set_access_time}
use thunder_chat.ChatServer.{
  ChatServer, Fresh, client_pointer, accept_client, close_client, set_max_user, create, is_full,
}
use thunder_chat.Listing.{is_listed}
use thunder_chat.EventLoop.{Connections, EventLoop, add_client, new_loop}
use thunder_chat.EventLoop.Steps.{Reach}

-- `SetAccessTime` of the connection at an address.
unfoldable pub touch : ℕ → ℕ → List Client → List Client
touch p now [] = []
touch p now (c ∷ cs) = (if c.pointer == p then set_access_time c now else c) ∷ touch p now cs

abbrev pub alive : ℕ → ChatServer → Bool
alive p s = is_listed client_pointer p s.clients

abbrev pub chat_connections : Connections ChatServer
chat_connections = record {
  alive = alive;
  close = close_client;
  touch = λ p now s. record s { clients = touch p now s.clients };
}

-- `AcceptClient`, with its `AddClient`.
unfoldable pub register :
    EventLoop ChatServer → ℕ → ClientType → Fresh → Option (EventLoop ChatServer)
register l fd type new = accept_client l.server fd type new >>= λ server.
    some (record l { server = server; interest = add_client new.added new.pointer l.interest })

-- What the acceptor does with an accepted socket.
unfoldable pub accept : EventLoop ChatServer → ℕ → Fresh → Option (EventLoop ChatServer)
unfolding is_full
accept l fd new = if is_full l.server then some l else register l fd client_user new

-- How connections are made. A new object has an address of its own.
pub data Enters (l : EventLoop ChatServer) : EventLoop ChatServer → Type 0 where
  accepted :
      (fd : ℕ) (new : Fresh) (l' : EventLoop ChatServer)
      → alive new.pointer l.server ≡ false
      → accept l fd new ≡ some l'
      → Enters l l'
  manager_registered :
      (fd : ℕ) (new : Fresh) (l' : EventLoop ChatServer)
      → alive new.pointer l.server ≡ false
      → register l fd client_chat_manager new ≡ some l'
      → Enters l l'

-- A server that has loaded its settings and been told its limit.
abbrev pub starting : ℕ → List ℕ → EventLoop ChatServer
starting limit memory = new_loop (set_max_user create (pos limit)) memory

abbrev pub Runs : ℕ → List ℕ → EventLoop ChatServer → Type 0
Runs limit memory = Reach chat_connections Enters (starting limit memory)
