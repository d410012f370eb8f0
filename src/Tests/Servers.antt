-- ===== src/Tests/Servers.antt =====
-- The chat server and the manager at concrete inputs.
use thunder_chat.Prelude.{ℕ, ◌≡◌, ◌*◌, refl, some, List, [], ◌∷◌, ◌++◌, arith, inl}
use thunder_chat.Prelude.Int.{pos}
use thunder_chat.CircularBuff.{get_used_size, get_total_size}
use thunder_chat.Packet.{chat_packet, header_bytes, le_bytes, header_of, le_value, uniq_id_of}
use thunder_chat.Message.{BroadcastMessage, client_chat_message, relayed_message}
use thunder_chat.Client.{Client, client_user, client_chat_server, chat_server, chat_manager}
use thunder_chat.Client.Commands.{Carries}
use thunder_chat.Client.Packets.{in_packet}
use thunder_chat.Manager.{ClientChatServer, work, message_broadcast, work_loop, update, packet_sent}
use thunder_chat.Manager.Relay.{
  AreRegistered, registered, connected, no_one, Relays, message_broadcast-echoes,
}
use thunder_chat.Manager.Packets.{IsChatPacket, chat_packets, no_packet}
use thunder_chat.Manager.Worker.{RelaysAll, HasRoom, work_loop-RelaysAll}
use thunder_chat.ChatServer.{
  ChatServer, push_client, count_client, new_client, is_full, deleted_socket, close_client,
  remove_client, uncount_client, socket_at, delete_socket, create, set_max_user, accept_connection,
  accept_client, Fresh, is_idle, live_socket,
}
use thunder_chat.ChatServer.Broadcast.{ReachesAll, message_broadcast-ReachesAll}
use thunder_chat.ChatServer.Writes
use thunder_chat.ChatServer.Writes.{open_socket, no_socket}
use thunder_chat.Listing.{erase_loop}
use thunder_chat.Listing.Erasing.{AreDead, is_dead, no_one_dead, erase_loop-skips}
use thunder_chat.ChatServer.Split.{Splits, split, split-join}
use thunder_chat.ChatServer.Negotiation.{hello_request}
use thunder_chat.Manager.Hello.{Agreed, negotiate-work}
use thunder_chat.Tests.Data.{
  empty_eight, packet_buffer, packet_buffer-IsValid, part_bytes, hello_bytes, hello_chat,
  connection,
}

-- Two chat servers, 5 and 6, the first with a packet in its buffer.
abbrev pub server_five : ClientChatServer
server_five = record {
  client = connection client_chat_server chat_manager packet_buffer;
  uniq_id = 5;
}

abbrev pub server_six : ClientChatServer
server_six = record {
  client = record (connection client_chat_server chat_manager empty_eight) {
    pointer = 101;
    socket = some 10;
  };
  uniq_id = 6;
}

abbrev pub both_servers : List ClientChatServer
both_servers = server_five ∷ server_six ∷ []

pub both_servers-AreRegistered : AreRegistered both_servers
both_servers-AreRegistered =
    registered server_five (server_six ∷ []) 9 refl (omega arith)
      (registered server_six [] 10 refl (omega arith) no_one)

-- A packet from the server with the identifier 2^31, which is in the list.
abbrev large_chat : List ℕ
large_chat = chat_packet 2147483648 hello_bytes 3

abbrev large_server : ClientChatServer
large_server = record {
  client = connection client_chat_server chat_manager empty_eight;
  uniq_id = 2147483648;
}

message_broadcast-echoes_example :
    Relays large_chat
      (λ s. Unit)
      (large_server ∷ [])
      (message_broadcast (large_server ∷ []) large_chat)
unfolding packet_sent chat_packet header_bytes le_bytes header_of le_value uniq_id_of
message_broadcast-echoes_example =
    message_broadcast-echoes (large_server ∷ []) large_chat large_chat
      (connected large_server [] 9 refl no_one) refl (omega arith) (omega arith)

hello_chat-IsChatPacket : IsChatPacket hello_chat
unfolding chat_packet header_bytes le_bytes header_of le_value
hello_chat-IsChatPacket = record {
  is_packet = record { says = refl; fits = omega arith };
  command = refl;
  has_id = omega arith;
}

packet_buffer-HasRoom : HasRoom packet_buffer
unfolding get_used_size get_total_size
packet_buffer-HasRoom = record {
  straight = record { valid = packet_buffer-IsValid; straight = omega arith };
  room = omega arith;
}

work_loop-RelaysAll_example :
    RelaysAll server_five both_servers
      (hello_chat ∷ [])
      part_bytes
      []
      (work_loop 2 50 both_servers server_five [])
unfolding update chat_packet header_bytes le_bytes
work_loop-RelaysAll_example =
    work_loop-RelaysAll 2 50 server_five both_servers (hello_chat ∷ []) part_bytes refl
      both_servers-AreRegistered (omega arith)
      (chat_packets hello_chat [] hello_chat-IsChatPacket no_packet) (inl (omega arith))
      packet_buffer-HasRoom refl

-- A chat server with two users and one manager; the first user has written a message.
abbrev pub first_user : Client
first_user = connection client_user chat_server empty_eight

abbrev second_user : Client
second_user = record first_user { pointer = 101; socket = some 10 }

abbrev pub two_users : List Client
two_users = first_user ∷ second_user ∷ []

abbrev pub server : ChatServer
server = record {
  clients = two_users;
  conn_count = pos 2;
  max_user = pos 50;
  uniq_id = 5;
  managers = live_socket 4 ∷ [];
}

pub two_users-AreConnected : Writes.AreConnected two_users
two_users-AreConnected =
    Writes.connected first_user (second_user ∷ []) 9 refl
      (Writes.connected second_user [] 10 refl Writes.no_client)

abbrev pub users_message : BroadcastMessage
users_message = record {
  message_type = client_chat_message;
  socket = 9;
  message = hello_bytes ++ (0 ∷ 0 ∷ []);
  message_size = pos 3;
}

pub users_message-Carries : Carries users_message 9 client_chat_message hello_bytes
users_message-Carries = record { size = refl; body = refl; sender = refl; kind = refl }

message_broadcast-ReachesAll_example :
    ReachesAll server users_message hello_bytes
      (thunder_chat.ChatServer.message_broadcast server users_message)
message_broadcast-ReachesAll_example =
    message_broadcast-ReachesAll server users_message 9 hello_bytes users_message-Carries
      (omega arith) (omega arith) two_users-AreConnected (open_socket 4 [] no_socket)

abbrev relayed_from_manager : BroadcastMessage
relayed_from_manager = record users_message { message_type = relayed_message }

relayed_from_manager-Carries : Carries relayed_from_manager 9 relayed_message hello_bytes
relayed_from_manager-Carries = record { size = refl; body = refl; sender = refl; kind = refl }

-- Ten minutes later.
abbrev later : ℕ
later = 600 * 1000000

two_users-AreDead : AreDead (is_idle later) two_users
two_users-AreDead =
    is_dead first_user (second_user ∷ []) refl (is_dead second_user [] refl no_one_dead)

erase_loop-skips_example :
    erase_loop (is_idle later) (pos 2) two_users ≡ some (pos 1, second_user ∷ [])
erase_loop-skips_example =
    erase_loop-skips (is_idle later) 2 1 two_users two_users-AreDead refl (omega arith)

-- "a,b" at the comma
split-join_example : Splits (44 ∷ []) (97 ∷ 44 ∷ 98 ∷ []) (split 4 (44 ∷ []) (97 ∷ 44 ∷ 98 ∷ []))
split-join_example = split-join 4 44 [] (97 ∷ 44 ∷ 98 ∷ []) (omega arith)

negotiate-work_example :
    Agreed server 7000 50 3 server_six
      (work 50 both_servers server_six (in_packet (hello_request 7000)))
negotiate-work_example =
    negotiate-work server 7000 50 3 10 both_servers server_six (omega arith) (omega arith) refl refl
