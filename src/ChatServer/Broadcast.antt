-- ===== src/ChatServer/Broadcast.antt =====
-- Who gets a message of src/ChatServer.cpp: the other users, and, unless it was relayed, all the managers.
use thunder_chat.Prelude.{ℕ, ◌+◌, ◌≤◌, ◌≡◌, ap, Option, some, List, arith, ◌++◌, length, le→leb}
use thunder_chat.Prelude.Int.{pos}
use thunder_chat.Ring.{load}
use thunder_chat.Packet.{chat_packet}
use thunder_chat.Message.{
  BroadcastMessage, MessageType, max_message_size, client_chat_message, relayed_message,
}
use thunder_chat.Client.Commands.{Carries}
use thunder_chat.Delivery.{Sent, Delivered}
use thunder_chat.ChatServer.{
  ChatServer, relay_packet, write_to_managers, message_broadcast, message_broadcast_to_managers,
  message_bytes,
}
use thunder_chat.ChatServer.RelayPacket.{relay_block, relay_packet_lem, relay_block_sent}
use thunder_chat.ChatServer.Writes.{
  AreConnected, client_socket, IsTarget, WritesToUsers, writes_to_users, AreOpen, manager_socket,
  WritesToManagers, writes_to_managers,
}

carried_bytes :
    (m : BroadcastMessage) (fd : ℕ) (type : MessageType) (bytes : List ℕ)
    → Carries m fd type bytes
    → length bytes ≤ length m.message
    → load m.message 0 (length bytes) ≡ some bytes
carried_bytes m fd type bytes carries room =
    rw (le→leb (0 + length bytes) (length m.message) (omega arith)) (ap some carries.body)

message_bytes_lem :
    (m : BroadcastMessage) (bytes : List ℕ)
    → m.message_size ≡ pos (length bytes)
    → load m.message 0 (length bytes) ≡ some bytes
    → message_bytes m ≡ some bytes
unfolding message_bytes
message_bytes_lem m bytes size body = simp (size, message_bytes, body)

-- Every manager gets the chat packet of `bytes`, and then every user but the sender gets `bytes`.
pub record ReachesAll (s : ChatServer) (m : BroadcastMessage) (bytes : List ℕ)
    (result : Option (List Sent)) : Type 0 where
  pub to_managers : List Sent
  pub to_users : List Sent
  pub result_eq : result ≡ some (to_managers ++ to_users)
  pub all_managers :
      Delivered manager_socket
        (chat_packet s.uniq_id bytes (length bytes))
        (λ socket. Unit {0})
        s.managers
        to_managers
  pub other_users : Delivered client_socket bytes (IsTarget m) s.clients to_users

-- Every user but those on the descriptor of the message gets `bytes`, and no manager gets anything.
pub record ReachesUsers (s : ChatServer) (m : BroadcastMessage) (bytes : List ℕ)
    (result : Option (List Sent)) : Type 0 where
  pub to_users : List Sent
  pub result_eq : result ≡ some to_users
  pub other_users : Delivered client_socket bytes (IsTarget m) s.clients to_users

-- A message of a user carries at most 1024 bytes, which lie within its block, all clients have sockets, and no
-- manager's socket is null or deleted: then `MessageBroadcast` writes one chat packet with the server's
-- identifier and exactly those bytes to every manager, and then those bytes to every client of type
-- CLIENT_USER but the sender, each once, and to no other client.
pub message_broadcast-ReachesAll :
    (s : ChatServer) (m : BroadcastMessage) (fd : ℕ) (bytes : List ℕ)
    → Carries m fd client_chat_message bytes
    → length bytes ≤ length m.message
    → length bytes ≤ max_message_size
    → AreConnected s.clients
    → AreOpen s.managers
    → ReachesAll s m bytes (message_broadcast s m)
unfolding message_broadcast message_broadcast_to_managers
message_broadcast-ReachesAll s m fd bytes carries room fits cs os = record {
  to_managers = managers.sents;
  to_users = users.sents;
  result_eq = simp (
    carries.kind, message_broadcast, message_broadcast_to_managers, packet, managers.result_eq,
    users.targets_eq, users.sents_eq,
  );
  all_managers = managers.delivered;
  other_users = users.delivered;
}
  where
    body : load m.message 0 (length bytes) ≡ some bytes
    body = carried_bytes m fd client_chat_message bytes carries room

    packet : relay_packet s.uniq_id m ≡ some (relay_block s.uniq_id bytes)
    packet = relay_packet_lem s.uniq_id m bytes carries.size body (omega (arith, fits))

    managers :
        WritesToManagers
          (chat_packet s.uniq_id bytes (length bytes))
          s.managers
          (write_to_managers s.managers (relay_block s.uniq_id bytes))
    managers =
        writes_to_managers s.managers (relay_block s.uniq_id bytes) _ os
          (relay_block_sent s.uniq_id bytes (omega (arith, fits)))

    users : WritesToUsers m bytes s.clients
    users = writes_to_users m bytes (message_bytes_lem m bytes carries.size body) s.clients cs

-- A relayed message, under the same conditions on its bytes and on the clients, is written to every
-- client of type CLIENT_USER but those on the message's descriptor, each once, and to no manager.
pub message_broadcast-ReachesUsers :
    (s : ChatServer) (m : BroadcastMessage) (fd : ℕ) (bytes : List ℕ)
    → Carries m fd relayed_message bytes
    → length bytes ≤ length m.message
    → AreConnected s.clients
    → ReachesUsers s m bytes (message_broadcast s m)
unfolding message_broadcast
message_broadcast-ReachesUsers s m fd bytes carries room cs = record {
  to_users = users.sents;
  result_eq = simp (carries.kind, message_broadcast, users.targets_eq, users.sents_eq);
  other_users = users.delivered;
}
  where
    users : WritesToUsers m bytes s.clients
    users =
        writes_to_users m bytes
          (message_bytes_lem m bytes carries.size
            (carried_bytes m fd relayed_message bytes carries room))
          s.clients cs
