-- ===== src/EndToEnd.antt =====
-- A message on its way from a user of one chat server to the users of another: src/ChatServer.cpp,
-- src/ThreadWorker.cpp, src/ChatUser.cpp and src/ChatServer.cpp again.
use thunder_chat.Prelude.{ℕ, ◌≤◌, ◌≡◌, List, [], ◌∷◌, ◌++◌, length, take, some}
use thunder_chat.CircularBuff.Bounds.{contents}
use thunder_chat.Packet.{chat_packet}
use thunder_chat.Message.{BroadcastMessage, max_message_size, client_chat_message}
use thunder_chat.Client.{Client, client_chat_manager, chat_server, chat_manager, execute_command}
use thunder_chat.Client.Commands.{Carries}
use thunder_chat.Client.Packets.{IsStraight}
use thunder_chat.Client.Relayed.{Relayed}
use thunder_chat.Manager.{ClientChatServer, work_loop, update}
use thunder_chat.Manager.Relay.{AreRegistered}
use thunder_chat.Manager.Worker.{RelaysAll, HasRoom}
use thunder_chat.ChatServer.{ChatServer, message_broadcast}
use thunder_chat.ChatServer.Writes.{AreConnected, AreOpen}
use thunder_chat.ChatServer.Broadcast.{ReachesAll, ReachesUsers}

-- A chat server `a` that broadcasts a message of one of its users.
pub record IsSending (a : ChatServer) (m : BroadcastMessage) (fd : ℕ) (bytes : List ℕ)
    : Type 0 where
  pub carries : Carries m fd client_chat_message bytes
  pub in_block : length bytes ≤ length m.message
  pub connected : AreConnected a.clients
  pub open_managers : AreOpen a.managers

-- A manager's connection whose buffer holds exactly the packet.
pub record IsAtManager (s : ClientChatServer) (servers : List ClientChatServer) (packet : List ℕ)
    : Type 0 where
  pub process : s.client.main_process ≡ chat_manager
  pub registered : AreRegistered (update s servers)
  pub room : HasRoom s.client.buffer
  pub holds : contents s.client.buffer ≡ packet

-- A chat server's connection to a manager whose buffer holds exactly the packet.
pub record IsAtServer (c : Client) (fd : ℕ) (memory packet : List ℕ) : Type 0 where
  pub type : c.client_type ≡ client_chat_manager
  pub process : c.main_process ≡ chat_server
  pub connected : c.socket ≡ some fd
  pub block : length memory ≡ max_message_size
  pub straight : IsStraight c.buffer
  pub holds : contents c.buffer ≡ packet

-- What the users of the other server get: all bytes but the last, and then 0.
abbrev pub arriving : List ℕ → ℕ → List ℕ
arriving bytes k = take k bytes ++ (0 ∷ [])

-- The four steps of a message's way, each with what it does.
pub record Crosses (a b : ChatServer) (m : BroadcastMessage) (bytes : List ℕ) (k ds_max_user : ℕ)
    (s : ClientChatServer) (servers : List ClientChatServer) (c : Client) (fd_b : ℕ)
    (memory : List ℕ) : Type 0 where
  pub sent : ReachesAll a m bytes (message_broadcast a m)
  pub relayed :
      RelaysAll s servers
        (chat_packet a.uniq_id bytes (length bytes) ∷ [])
        []
        []
        (work_loop 2 ds_max_user servers s [])
  pub received : Relayed fd_b (arriving bytes k) [] (execute_command c memory)
  pub delivered :
      ReachesUsers b received.message (arriving bytes k) (message_broadcast b received.message)
