-- ===== src/Tests/Loop.antt =====
-- The event loop of a chat server at a concrete run: a user is accepted, reported, queued and taken.
use thunder_chat.Prelude.{
  ℕ, ◌≡◌, refl, some, List, [], ◌∷◌, true, false, arith, replicate, length, length-replicate,
}
use thunder_chat.Prelude.Int.{pos}
use thunder_chat.CircularQueue.{create, enqueue, dequeue, qsize}
use thunder_chat.Client.{
  Client, client_user, chat_server, create_client, set_type, set_main_process, set_state,
  set_access_time,
}
use thunder_chat.ChatServer.{
  push_client, count_client, new_client, close_client, remove_client, uncount_client, ChatServer,
  Fresh, accept_client, close_client, set_max_user,
}
use thunder_chat.ChatServer
use thunder_chat.ChatServer.Loop.{
  chat_connections, accept, register, touch, accepted, starting, Runs,
}
use thunder_chat.ChatServer.LoopSafety.{Runs-IsOwned, Runs-NeverDangles}
use thunder_chat.Listing.{push_back, is_listed}
use thunder_chat.Manager.Accounts.{
  push_server, count_server, ChatManager, create_manager, new_server, accept_server,
}
use thunder_chat.Manager.Loop.{
  server_connections, accept_in_loop, dispatch_server_event, touch_server, server_accepted, Serves,
}
use thunder_chat.Manager.LoopSafety.{Serves-NeverDangles}
use thunder_chat.EventLoop.{
  EventLoop, Event, add_client, dispatch, handle_event, read_event, take_out, take_client, done,
  new_loop,
}
use thunder_chat.EventLoop.Steps.{IsOwned, started, stepped, entered, polled, dispatched, taken}
use thunder_chat.EventLoop.Safety.{NeverDangles}
use thunder_chat.Tests.Data.{empty_eight}

-- The array of a fresh queue.
abbrev zeros : List ℕ
zeros = replicate qsize 0

abbrev new_connection : Fresh
new_connection = record { pointer = 100; now = 0; buffer = empty_eight; added = true }

abbrev new_user : Client
new_user =
    set_main_process (set_type (create_client 100 (some 9) client_user 0 empty_eight) client_user)
      chat_server

abbrev server_with : List Client → ChatServer
server_with clients = record {
  clients = clients;
  conn_count = pos 1;
  max_user = pos 4;
  uniq_id = 0;
  managers = [];
}

abbrev readable_user : Event
readable_user = record { client = 100; failed = false; readable = true }

abbrev loop_accepted : EventLoop ChatServer
loop_accepted = record {
  server = server_with (new_user ∷ []);
  interest = 100 ∷ [];
  receive_queue = create zeros;
  working = [];
  lost = [];
  pending = [];
}

abbrev loop_polled : EventLoop ChatServer
loop_polled = record loop_accepted { pending = readable_user ∷ [] }

abbrev loop_queued : EventLoop ChatServer
loop_queued = record {
  server = server_with (set_access_time new_user 7 ∷ []);
  interest = [];
  receive_queue = record { start_idx = 0; num_full = 1; cells = 100 ∷ replicate 1023 0 };
  working = [];
  lost = [];
  pending = [];
}

abbrev loop_taken : EventLoop ChatServer
loop_taken = record loop_queued {
  receive_queue = record { start_idx = 1; num_full = 0; cells = 100 ∷ replicate 1023 0 };
  working = 100 ∷ [];
}

step_accepted : accept (starting 4 zeros) 9 new_connection ≡ some loop_accepted
unfolding accept register accept_client add_client is_listed push_back create_client set_type
    push_client count_client new_client close_client remove_client uncount_client set_main_process
    set_max_user ChatServer.create
step_accepted = refl

step_dispatched : dispatch chat_connections loop_polled 7 ≡ done loop_queued
unfolding dispatch handle_event read_event touch take_out enqueue is_listed create_client set_type
    set_main_process set_access_time create
step_dispatched = refl

step_taken : take_client chat_connections loop_queued ≡ some loop_taken
unfolding take_client dequeue
step_taken = refl

loop_taken-Runs : Runs 4 zeros loop_taken
unfolding is_listed set_max_user ChatServer.create
loop_taken-Runs =
    stepped loop_queued loop_taken
      (stepped loop_polled loop_queued
        (stepped loop_accepted loop_polled
          (stepped (starting 4 zeros) loop_accepted started
            (entered loop_accepted (accepted 9 new_connection loop_accepted refl step_accepted)))
          (polled (readable_user ∷ []) refl (λ p. omega arith)))
        (dispatched 7 loop_queued step_dispatched))
      (taken loop_taken step_taken)

zeros_full : length zeros ≡ qsize
zeros_full = length-replicate {A = ℕ} qsize 0

Runs-IsOwned_example : IsOwned chat_connections loop_taken
Runs-IsOwned_example = Runs-IsOwned 4 zeros loop_taken zeros_full loop_taken-Runs

Runs-NeverDangles_example : NeverDangles chat_connections loop_taken
Runs-NeverDangles_example = Runs-NeverDangles 4 zeros loop_taken zeros_full loop_taken-Runs

-- The same way for a chat server's connection in a manager.
abbrev manager_accepted : EventLoop ChatManager
manager_accepted = accept_in_loop (new_loop (create_manager (pos 4)) zeros) 9 0 true new_connection

abbrev manager_polled : EventLoop ChatManager
manager_polled = record manager_accepted { pending = readable_user ∷ [] }

abbrev manager_queued : EventLoop ChatManager
manager_queued = record manager_accepted {
  server = record manager_accepted.server {
    servers = touch_server 100 7 manager_accepted.server.servers;
  };
  interest = [];
  receive_queue = record { start_idx = 0; num_full = 1; cells = 100 ∷ replicate 1023 0 };
}

manager_dispatched : dispatch_server_event manager_polled 7 ≡ done manager_queued
unfolding dispatch handle_event read_event take_out enqueue is_listed accept_in_loop accept_server
    push_server count_server push_back add_client create create_manager new_server create_client
    set_main_process set_state
manager_dispatched = refl

manager_queued-Serves : Serves (pos 4) zeros manager_queued
unfolding is_listed create_manager accept_in_loop add_client
manager_queued-Serves =
    stepped manager_polled manager_queued
      (stepped manager_accepted manager_polled
        (stepped (new_loop (create_manager (pos 4)) zeros) manager_accepted started
          (entered manager_accepted (server_accepted 9 0 true new_connection refl)))
        (polled (readable_user ∷ []) refl (λ p. omega arith)))
      (dispatched 7 manager_queued manager_dispatched)

Serves-NeverDangles_example :
    IsOwned server_connections manager_queued × NeverDangles server_connections manager_queued
Serves-NeverDangles_example =
    Serves-NeverDangles (pos 4) zeros manager_queued zeros_full manager_queued-Serves
