-- ===== src/Tests/Sessions.antt =====
-- The threads of both servers between their statements, and a manager's socket that is deleted, at
-- concrete inputs.
use thunder_chat.Prelude.{◌≡◌, refl, none, some, [], ◌∷◌, arith, true, false}
use thunder_chat.Prelude.Int.{pos}
use thunder_chat.Client.{Client, client_user, client_chat_manager}
use thunder_chat.Listing.{remove, is_listed}
use thunder_chat.ChatServer.{
  ChatServer, Fresh, create, set_max_user, is_full, deleted_socket, push_client, count_client,
  new_client, close_client, remove_client, uncount_client, socket_at, delete_socket,
  message_broadcast,
}
use thunder_chat.ChatServer.Threads.{
  Serving, beginning, room_found, user_counted, user_pushed, Reach, started, stepped,
}
use thunder_chat.ChatServer.Sessions.{IsCounted, Reach-IsCounted}
use thunder_chat.ChatServer.Dangling.{is_first, close_client-Dangles}
use thunder_chat.Manager.Accounts.{
  create_manager, new_server, is_manager_full, push_server, count_server,
}
use thunder_chat.Manager.Threads.{
  Managing, opening, seat_found, server_pushed, server_counted, Comes, begins, changes,
}
use thunder_chat.Manager.Connections.{IsBounded, Comes-IsBounded}
use thunder_chat.Tests.Data.{empty_eight}
use thunder_chat.Tests.Servers.{first_user, server, users_message}

abbrev new_connection : Fresh
new_connection = record { pointer = 100; now = 0; buffer = empty_eight; added = true }

-- A server that has accepted one user.
abbrev room : Serving
room = record (beginning 50) { found_room = true }

abbrev one_counted : Serving
one_counted = record room {
  server = count_client room.server;
  found_room = false;
  users_entering = 1;
}

abbrev one_pushed : Serving
one_pushed = record one_counted {
  server = push_client one_counted.server (new_client 9 client_user new_connection);
  users_entering = 0;
}

one_pushed-Reach : Reach 50 one_pushed
unfolding create set_max_user is_full count_client is_listed
one_pushed-Reach =
    stepped one_counted one_pushed
      (stepped room one_counted (stepped (beginning 50) room started (room_found refl refl))
        (user_counted refl))
      (user_pushed 9 new_connection (omega arith) refl)

Reach-IsCounted_example : IsCounted 50 one_pushed
Reach-IsCounted_example = Reach-IsCounted 50 one_pushed one_pushed-Reach

-- The first server again, whose second client is the manager's.
abbrev managers_client : Client
managers_client = record first_user {
  pointer = 102;
  socket = some 4;
  client_type = client_chat_manager;
}

abbrev with_manager : ChatServer
with_manager = record server { clients = first_user ∷ managers_client ∷ []; conn_count = pos 2 }

abbrev without_manager : ChatServer
without_manager = record with_manager {
  clients = first_user ∷ [];
  conn_count = pos 1;
  managers = deleted_socket ∷ [];
}

manager_closed : close_client with_manager 102 ≡ some without_manager
unfolding close_client remove_client uncount_client is_listed remove socket_at delete_socket
manager_closed = refl

close_client-Dangles_example : message_broadcast without_manager users_message ≡ none
unfolding socket_at
close_client-Dangles_example =
    close_client-Dangles with_manager without_manager 102 4 users_message refl (is_first [])
      manager_closed refl

-- A manager that has accepted one connection.
abbrev seat : Managing
seat = record (opening 50) { found_seat = true }

abbrev one_listed : Managing
one_listed = record seat {
  manager = push_server seat.manager (new_server 9 0 new_connection);
  found_seat = false;
  uncounted = true;
}

abbrev one_accepted : Managing
one_accepted = record one_listed { manager = count_server one_listed.manager; uncounted = false }

one_accepted-Comes : Comes 50 one_accepted
unfolding create_manager is_manager_full is_listed push_server
one_accepted-Comes =
    changes one_listed one_accepted
      (changes seat one_listed (changes (opening 50) seat begins (seat_found refl refl refl))
        (server_pushed 9 0 new_connection refl refl refl))
      (server_counted refl)

Comes-IsBounded_example : IsBounded 50 one_accepted
Comes-IsBounded_example = Comes-IsBounded 50 one_accepted one_accepted-Comes
