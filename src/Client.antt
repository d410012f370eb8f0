-- ===== src/Client.antt =====
-- src/Client.cpp and its subclasses src/ChatUser.cpp, src/ClientChatServer.cpp and src/ClientServer.cpp:
-- what a connection keeps, and what one call of `ExecuteCommand` does with the bytes received. `none`
-- is a copy outside a block of memory or a call through a null pointer.
pub mod Commands
pub mod Packets
pub mod Relayed
use thunder_chat.Prelude.{
  ℕ, zero, suc, ◌+◌, ◌-◌, ◌/◌, ◌%◌, Option, none, some, List, [], ◌∷◌, ◌++◌, Bool, true, false,
  ◌==◌, leb, if◌then◌else◌, ◌>>=◌, replicate, drop, take,
}
use thunder_chat.Prelude.Int.{ℤ, pos, negsuc, is_negative}
use thunder_chat.Ring.{load, store}
use thunder_chat.CircularBuff.{CircularBuff, get, get_used_size, get_header}
use thunder_chat.Packet.{
  PacketHeader, header_of, uniq_id_of, header_bytes, le_bytes, pdu_header_size, max_pdu_size,
  cmd_chat_broadcast, cmd_hello_ds_dsm, cmd_hello_dsm_ds, cmd_heartbeat_dc_dsm,
  cmd_heartbeat_dsm_dc, hello_dsm_ds_size,
}
use thunder_chat.Message.{
  BroadcastMessage, create, set_message, set_message_size, set_socket_fd, set_message_type,
  relayed_message,
}

-- ENUM_CLIENT_TYPE (include/Include.h)
pub data ClientType : Type 0 where
  client_nothing client_user client_server client_chat_manager client_chat_server : ClientType

-- ENUM_CLIENT_STATE, a set of bits
abbrev pub state_wait : ℕ
state_wait = 1

abbrev pub state_closed : ℕ
state_closed = 4

-- What `m_pMainProcess` points at, as far as the `dynamic_cast`s tell.
pub data MainProcess : Type 0 where
  no_process chat_server chat_manager : MainProcess

-- `pointer` is the object's address and `socket` the descriptor of its socket, if it has one; times are
-- in microseconds.
pub record Client : Type 0 where
  pub pointer : ℕ
  pub socket : Option ℕ
  pub state : ℕ
  pub client_type : ClientType
  pub access_time : ℕ
  pub main_process : MainProcess
  pub buffer : CircularBuff

-- The constructor `Client(Socket *, ENUM_CLIENT_TYPE)` at the time `now`.
unfoldable pub create_client : ℕ → Option ℕ → ClientType → ℕ → CircularBuff → Client
create_client pointer socket type now buffer = record {
  pointer = pointer;
  socket = socket;
  state = state_wait;
  client_type = type;
  access_time = now;
  main_process = no_process;
  buffer = buffer;
}

unfoldable pub set_state : Client → ℕ → Client
set_state c state = record c { state = state }

-- `m_iState & STATE_CLOSED`
unfoldable pub is_closed : Client → Bool
is_closed c = (c.state / state_closed) % 2 == 1

unfoldable pub set_type : Client → ClientType → Client
set_type c type = record c { client_type = type }

unfoldable pub set_main_process : Client → MainProcess → Client
set_main_process c process = record c { main_process = process }

unfoldable pub set_access_time : Client → ℕ → Client
set_access_time c now = record c { access_time = now }

unfoldable pub is_valid_packet : Client → ℕ
unfolding get_used_size
is_valid_packet c = get_used_size c.buffer

-- `GetPacket(buffer, length)`: the return code, the block that the pointer names, and the client.
unfoldable pub get_packet : Client → List ℕ → ℕ → Option (ℤ × List ℕ × Client)
get_packet c block n = get c.buffer n >>= λ (code, bytes, rest).
    let c' = record c { buffer = rest } in
    if is_negative code
    then some (negsuc 0, block, c')
    else (store block 0 bytes >>= λ filled. some (pos 0, filled, c'))

-- `memset(&tPacket, 0, sizeof(tPacket))`
abbrev pub empty_packet : List ℕ
empty_packet = replicate max_pdu_size 0

-- `GetHeader`, and then `GetPacket` of the length that the header says into a fresh packet.
unfoldable pub next_packet : Client → Option (PacketHeader × ℤ × List ℕ × Client)
next_packet c = get_header c.buffer >>= λ bytes.
    let header = header_of bytes in
    get_packet c empty_packet (header.length + pdu_header_size) >>= λ (code, packet, c').
    some (header, code, packet, c')

-- `length - sizeof(uint64_t)`, converted to `int`.
unfoldable pub body_size : ℕ → ℤ
body_size n = if leb 8 n then pos (n - 8) else negsuc (8 - n - 1)

-- `MessageBroadcast(message)` of a `ChatUser`: the message that goes to the broadcast queue.
unfoldable pub queued : Client → BroadcastMessage → Option BroadcastMessage
queued c m = elim c.main_process [ chat_server ↦ some m | _ ↦ none ]

-- `ExecuteCommand` of a `ChatUser` of type CLIENT_CHAT_MANAGER: the message that a manager relays.
unfoldable pub execute_manager : Client → List ℕ → Option (ℤ × Client × Option BroadcastMessage)
unfolding queued
execute_manager c memory = next_packet c >>= λ (header, code, packet, c').
    if is_negative code
    then some (negsuc 0, c', none)
    else if (header_of packet).command == cmd_chat_broadcast
    then (let size = body_size header.length in
        set_message (set_message_size (create memory) size) (drop 12 packet) size >>= λ m.
        c.socket >>= λ fd.
        some (pos 0, c', queued c' (set_message_type (set_socket_fd m fd) relayed_message)))
    else some (pos 0, c', none)

-- `ExecuteCommand` of any other `ChatUser`: all that has been received is one message.
unfoldable pub execute_user : Client → List ℕ → Option (ℤ × Client × Option BroadcastMessage)
unfolding queued get_used_size
execute_user c memory =
    let size = get_used_size c.buffer in
    let m = set_message_size (create memory) (pos size) in
    get_packet c m.message size >>= λ (code, block, c').
    if is_negative code
    then some (negsuc 0, c', none)
    else (c.socket >>= λ fd.
        some (pos 0, c', queued c' (set_socket_fd (record m { message = block }) fd)))

-- `ChatUser::ExecuteCommand`; `memory` is what the block of a fresh message holds.
unfoldable pub execute_command : Client → List ℕ → Option (ℤ × Client × Option BroadcastMessage)
execute_command c memory = elim c.client_type [
  | client_chat_manager ↦ execute_manager c memory
  | _ ↦ execute_user c memory
]

-- `ClientServer::ExecuteCommand`
unfoldable pub execute_server : Client → Option (ℤ × Client)
execute_server c = next_packet c >>= λ (header, code, packet, c').
    if is_negative code then some (negsuc 0, c') else some (pos 0, c')
