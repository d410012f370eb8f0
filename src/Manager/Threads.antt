-- ===== src/Manager/Threads.antt =====
-- The connections of src/ChatManager.cpp over time: the thread of `Run`, which accepts, and the worker
-- threads, each between any two statements of the others. `m_lockClient` guards the list and not
-- `m_iConnCount`.
use thunder_chat.Prelude.{ℕ, ◌+◌, ◌-◌, ◌<◌, ◌≡◌, some, Bool, true, false}
use thunder_chat.Prelude.Int.{pos}
use thunder_chat.Listing.{is_listed}
use thunder_chat.ChatServer.{Fresh}
use thunder_chat.Manager.Accounts.{
  ChatManager, server_pointer, create_manager, new_server, is_manager_full, count_server,
  uncount_server, push_server, remove_server,
}

-- The manager, with where its threads are: whether the thread of `Run` has found room for an accepted
-- socket and not yet listed its connection, or has listed and not yet counted it; the connections that
-- are out of the list and still counted; and the updates `++` and `--` of the count that another
-- thread's store has overwritten.
pub record Managing : Type 0 where
  pub manager : ChatManager
  pub found_seat : Bool
  pub uncounted : Bool
  pub leaving : ℕ
  pub lost_increments : ℕ
  pub lost_decrements : ℕ

-- `new` gives an address that no connection has. `seat_given_up` is a socket that is not for servers, or
-- that `AddClient` refuses.
pub data Change (v : Managing) : Managing → Type 0 where
  seat_found :
      v.found_seat ≡ false
      → v.uncounted ≡ false
      → is_manager_full v.manager ≡ false
      → Change v (record v { found_seat = true })
  seat_given_up : Change v (record v { found_seat = false })
  server_pushed :
      (fd memory : ℕ) (new : Fresh)
      → v.found_seat ≡ true
      → is_listed server_pointer new.pointer v.manager.servers ≡ false
      → v.uncounted ≡ false
      → Change v (record v {
        manager = push_server v.manager (new_server fd memory new);
        found_seat = false;
        uncounted = true;
      })
  server_counted :
      v.uncounted ≡ true
      → Change v (record v { manager = count_server v.manager; uncounted = false })
  server_removed :
      (pointer : ℕ) (m : ChatManager)
      → remove_server v.manager pointer ≡ some m
      → Change v (record v { manager = m; leaving = v.leaving + 1 })
  server_uncounted :
      0 < v.leaving
      → Change v (record v { manager = uncount_server v.manager; leaving = v.leaving - 1 })
  increment_overwritten :
      Change v
        (record v { manager = uncount_server v.manager; lost_increments = v.lost_increments + 1 })
  decrement_overwritten :
      Change v
        (record v { manager = count_server v.manager; lost_decrements = v.lost_decrements + 1 })

-- A new manager whose settings allow `limit` connections.
abbrev pub opening : ℕ → Managing
opening limit = record {
  manager = create_manager (pos limit);
  found_seat = false;
  uncounted = false;
  leaving = 0;
  lost_increments = 0;
  lost_decrements = 0;
}

pub data Comes (limit : ℕ) : Managing → Type 0 where
  begins : Comes limit (opening limit)
  changes : (v v' : Managing) → Comes limit v → Change v v' → Comes limit v'
