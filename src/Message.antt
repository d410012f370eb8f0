-- ===== src/Message.antt =====
-- src/BroadcastMessage.cpp and include/BroadcastMessage.h: a message on its way to the clients.
use thunder_chat.Prelude.{
  ℕ, zero, suc, Option, none, some, List, set, ◌>>=◌, length, if◌then◌else◌, replicate, ltb,
}
use thunder_chat.Prelude.Int.{ℤ, pos, negsuc}
use thunder_chat.Ring.{load, store}

abbrev pub max_message_size : ℕ
max_message_size = 1024

-- ENUM_MESSAGE_TYPE
pub data MessageType : Type 0 where
  client_chat_message relayed_message : MessageType

-- `message` is the block that the pointer owns.
pub record BroadcastMessage : Type 0 where
  pub message_type : MessageType
  pub socket : ℕ
  pub message : List ℕ
  pub message_size : ℤ

-- The constructor; `memory` is what the `MAX_MESSAGE_SIZE` fresh bytes hold.
unfoldable pub create : List ℕ → BroadcastMessage
create memory = record {
  message_type = client_chat_message;
  socket = 0;
  message = memory;
  message_size = pos 0;
}

-- A write of one byte through the pointer; `none` is outside the block.
unfoldable pub store_byte : List ℕ → ℕ → ℕ → Option (List ℕ)
store_byte block i x = if ltb i (length block) then some (set block i x) else none

-- `SetMessage(char *)`: clears the block and copies its whole size.
unfoldable pub set_message_whole : BroadcastMessage → List ℕ → Option BroadcastMessage
set_message_whole m src = store m.message 0 (replicate max_message_size 0) >>= λ cleared.
    load src 0 max_message_size >>= λ bytes.
    store cleared 0 bytes >>= λ block. some (record m { message = block })

-- `SetMessage(char *, int)`: copies `size` bytes, a negative size being a huge `size_t`, and ends them
-- with a zero byte.
unfoldable pub set_message : BroadcastMessage → List ℕ → ℤ → Option BroadcastMessage
unfolding store_byte
set_message m src (negsuc n) = none
set_message m src (pos zero) = none
set_message m src (pos (suc n)) = load src 0 (suc n) >>= λ bytes.
    store m.message 0 bytes >>= λ block.
    store_byte block n 0 >>= λ ended. some (record m { message = ended })

unfoldable pub set_message_size : BroadcastMessage → ℤ → BroadcastMessage
set_message_size m size = record m { message_size = size }

unfoldable pub set_socket_fd : BroadcastMessage → ℕ → BroadcastMessage
set_socket_fd m fd = record m { socket = fd }

unfoldable pub set_message_type : BroadcastMessage → MessageType → BroadcastMessage
set_message_type m t = record m { message_type = t }
