-- ===== src/Tests/Crossing.antt =====
-- A message that crosses two servers, at concrete inputs.
use thunder_chat.Prelude.{List, [], ◌∷◌}
use thunder_chat.Client.{Client, client_chat_server, client_chat_manager, chat_server, chat_manager}
use thunder_chat.Manager.{ClientChatServer}
use thunder_chat.ChatServer.{ChatServer}
use thunder_chat.Tests.Data.{only_packet, connection}
use thunder_chat.Tests.Servers.{server, server_six}

-- The manager's connection to the server 5.
abbrev sender_at_manager : ClientChatServer
sender_at_manager = record {
  client = connection client_chat_server chat_manager only_packet;
  uniq_id = 5;
}

abbrev second_server : ChatServer
second_server = record server { uniq_id = 6 }

abbrev other_server : Client
other_server = connection client_chat_manager chat_server only_packet

abbrev listed : List ClientChatServer
listed = sender_at_manager ∷ server_six ∷ []
