-- ===== src/Manager/Hello.antt =====
-- The greeting between a chat server (src/ChatServer.cpp) and a manager (src/ClientChatServer.cpp).
use thunder_chat.Prelude.{
  ℕ, ◌^◌, ◌<◌, ◌≡◌, refl, ap, ◌∙◌, Option, some, List, [], ◌∷◌, arith, lt→ltb,
}
use thunder_chat.Prelude.Int.{pos}
use thunder_chat.Packet.{header_of, header_bytes, le_bytes, le_value, uniq_id_of, cmd_hello_ds_dsm}
use thunder_chat.Packet.Layout.{le_value-le_bytes}
use thunder_chat.Client.{client_chat_server, chat_manager, set_type}
use thunder_chat.Client.Packets.{in_packet}
use thunder_chat.Delivery.{Sent}
use thunder_chat.Manager.{ClientChatServer, work, work_hello, hello_packet}
use thunder_chat.ChatServer.{ChatServer, set_max_user}
use thunder_chat.ChatServer.Negotiation.{hello_request, negotiate, answered_max_user, int_of_u32}

uniq_id_of-hello_request :
    (stamp : ℕ) → stamp < 256 ^ 8 → uniq_id_of (in_packet (hello_request stamp)) ≡ stamp
unfolding uniq_id_of hello_request header_bytes le_bytes
uniq_id_of-hello_request stamp h = le_value-le_bytes 8 stamp h

answered_max_user-hello_packet :
    (stamp max_user : ℕ)
    → max_user < 2 ^ 31
    → answered_max_user (hello_packet stamp max_user) ≡ pos max_user
unfolding answered_max_user hello_packet header_bytes le_bytes int_of_u32
answered_max_user-hello_packet stamp max_user h =
    ap int_of_u32 (le_value-le_bytes 4 max_user (omega arith))
    ∙ rw (lt→ltb max_user (2 ^ 31) h) refl

-- The server has become a chat server with that identifier at the manager, and knows its limit.
pub record Agreed (s : ChatServer) (stamp limit fd : ℕ) (t : ClientChatServer)
    (worked : Option (ClientChatServer × List Sent)) : Type 0 where
  pub greeted : ClientChatServer
  pub answer : List ℕ
  pub fd_at_manager : ℕ
  pub worked_eq : worked ≡ some (greeted, (fd_at_manager, answer) ∷ [])
  pub known : greeted.uniq_id ≡ stamp
  pub type : greeted.client.client_type ≡ client_chat_server
  pub negotiated :
      negotiate s stamp
        (record { connected = some fd; written = pos 12; recv_result = pos 24; received = answer })
      ≡ (record s { uniq_id = stamp; max_user = pos limit }, some fd)

command-hello_request :
    (stamp : ℕ) → (header_of (in_packet (hello_request stamp))).command ≡ cmd_hello_ds_dsm
unfolding header_of hello_request header_bytes le_bytes le_value
command-hello_request stamp = refl

work-hello :
    (ds_max_user : ℕ) (servers : List ClientChatServer) (t : ClientChatServer) (packet : List ℕ)
    → (header_of packet).command ≡ cmd_hello_ds_dsm
    → work ds_max_user servers t packet ≡ work_hello ds_max_user t packet
unfolding work
work-hello ds_max_user servers t packet e = rw e refl

hello_worked :
    (ds_max_user fd : ℕ) (t : ClientChatServer) (packet : List ℕ)
    → t.client.main_process ≡ chat_manager
    → t.client.socket ≡ some fd
    → work_hello ds_max_user t packet
      ≡ some (
        record { client = set_type t.client client_chat_server; uniq_id = uniq_id_of packet },
        (fd, hello_packet (uniq_id_of packet) ds_max_user) ∷ [],
      )
unfolding work_hello
hello_worked ds_max_user fd t packet process here = simp (process, here, work_hello)

-- A chat server greets with a 64-bit identifier, and the manager, whose connection has a socket, allows
-- fewer than 2^31 users: then the manager knows the connection as a chat server with exactly that
-- identifier and sends one answer, from which the chat server takes that number of users as its limit.
pub negotiate-work :
    (s : ChatServer) (stamp ds_max_user fd fd_at_manager : ℕ) (servers : List ClientChatServer)
    (t : ClientChatServer)
    → stamp < 256 ^ 8
    → ds_max_user < 2 ^ 31
    → t.client.main_process ≡ chat_manager
    → t.client.socket ≡ some fd_at_manager
    → Agreed s stamp ds_max_user fd t (work ds_max_user servers t (in_packet (hello_request stamp)))
unfolding negotiate set_max_user set_type
negotiate-work s stamp ds_max_user fd fd_at_manager servers t fits limited process here = record {
  greeted = record {
    client = set_type t.client client_chat_server;
    uniq_id = uniq_id_of (in_packet (hello_request stamp));
  };
  answer = hello_packet (uniq_id_of (in_packet (hello_request stamp))) ds_max_user;
  fd_at_manager = fd_at_manager;
  worked_eq =
      work-hello ds_max_user servers t (in_packet (hello_request stamp))
        (command-hello_request stamp)
      ∙ hello_worked ds_max_user fd_at_manager t (in_packet (hello_request stamp)) process here;
  known = uniq_id_of-hello_request stamp fits;
  type = refl;
  negotiated =
      ap (λ n. (record s { uniq_id = stamp; max_user = n }, some fd))
        (answered_max_user-hello_packet (uniq_id_of (in_packet (hello_request stamp))) ds_max_user
          limited);
}
