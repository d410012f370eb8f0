-- ===== src/ChatServer/Threads.antt =====
-- The connections of src/ChatServer.cpp over time: the acceptor (src/ThreadAcceptor.cpp), `RegisterManager`,
-- the event loop and the receiver threads, each between any two statements of the others. `m_lockClient`
-- guards the list and not `m_iConnCount`.
use thunder_chat.Prelude.{ℕ, ◌+◌, ◌-◌, ◌<◌, ◌≡◌, some, Bool, true, false}
use thunder_chat.Prelude.Int.{pos}
use thunder_chat.Client.{client_user, client_chat_manager}
use thunder_chat.Listing.{is_listed}
use thunder_chat.ChatServer.{
  ChatServer, Fresh, create, set_max_user, is_full, new_client, count_client, uncount_client,
  push_client, remove_client, client_pointer,
}

-- The server, with where its threads are: whether the acceptor, the only thread that accepts users, has
-- found room and not yet counted its user; the users and managers that are counted and not yet in the
-- list; the clients that are out of the list and still counted; and the updates `++` and `--` of the
-- count that another thread's store has overwritten.
pub record Serving : Type 0 where
  pub server : ChatServer
  pub found_room : Bool
  pub users_entering : ℕ
  pub managers_entering : ℕ
  pub leaving : ℕ
  pub lost_increments : ℕ
  pub lost_decrements : ℕ

-- `new` gives an address that no client has. A connection that `AddClient` refuses is closed by the same
-- steps as any other.
pub data Step (v : Serving) : Serving → Type 0 where
  room_found :
      v.found_room ≡ false → is_full v.server ≡ false → Step v (record v { found_room = true })
  user_counted :
      v.found_room ≡ true
      → Step v (record v {
        server = count_client v.server;
        found_room = false;
        users_entering = v.users_entering + 1;
      })
  user_pushed :
      (fd : ℕ) (new : Fresh)
      → 0 < v.users_entering
      → is_listed client_pointer new.pointer v.server.clients ≡ false
      → Step v (record v {
        server = push_client v.server (new_client fd client_user new);
        users_entering = v.users_entering - 1;
      })
  manager_counted :
      Step v
        (record v { server = count_client v.server; managers_entering = v.managers_entering + 1 })
  manager_pushed :
      (fd : ℕ) (new : Fresh)
      → 0 < v.managers_entering
      → is_listed client_pointer new.pointer v.server.clients ≡ false
      → Step v (record v {
        server = push_client v.server (new_client fd client_chat_manager new);
        managers_entering = v.managers_entering - 1;
      })
  client_removed :
      (pointer : ℕ) (s : ChatServer)
      → remove_client v.server pointer ≡ some s
      → Step v (record v { server = s; leaving = v.leaving + 1 })
  client_uncounted :
      0 < v.leaving
      → Step v (record v { server = uncount_client v.server; leaving = v.leaving - 1 })
  increment_overwritten :
      Step v
        (record v { server = uncount_client v.server; lost_increments = v.lost_increments + 1 })
  decrement_overwritten :
      Step v (record v { server = count_client v.server; lost_decrements = v.lost_decrements + 1 })

-- A new server whose managers allow `limit` users.
abbrev pub beginning : ℕ → Serving
beginning limit = record {
  server = set_max_user create (pos limit);
  found_room = false;
  users_entering = 0;
  managers_entering = 0;
  leaving = 0;
  lost_increments = 0;
  lost_decrements = 0;
}

pub data Reach (limit : ℕ) : Serving → Type 0 where
  started : Reach limit (beginning limit)
  stepped : (v v' : Serving) → Reach limit v → Step v v' → Reach limit v'
