-- ===== src/ChatServer.antt =====
-- src/ChatServer.cpp, with the accepting loop of src/ThreadAcceptor.cpp and src/ThreadBroadcaster.cpp: the
-- clients of a chat server, and the broadcast of their messages. `none` is a call through a null or a
-- dangling pointer, or a copy outside a block of memory.
pub mod Loop
pub mod LoopSafety
pub mod Writes
pub mod Broadcast
pub mod Accounts
pub mod Negotiation
pub mod Split
pub mod Threads
pub mod Sessions
pub mod Dangling
pub mod RelayPacket
use thunder_chat.Prelude.{
  ℕ, ◌+◌, ◌-◌, ◌*◌, Option, none, some, List, [], ◌∷◌, ◌++◌, Bool, true, false, ◌==◌, ltb, leb,
  if◌then◌else◌, ◌>>=◌, replicate, not, ◌&&◌,
}
use thunder_chat.Prelude.Int.{ℤ, pos, negsuc, increment, decrement, at_least}
use thunder_chat.Ring.{load, store}
use thunder_chat.Packet.{
  header_bytes, header_of, le_bytes, pdu_header_size, cmd_chat_broadcast, max_pdu_size,
}
use thunder_chat.CircularBuff.{CircularBuff}
use thunder_chat.Message.{BroadcastMessage, MessageType, relayed_message, client_chat_message}
use thunder_chat.Client.{
  Client, ClientType, client_user, client_chat_manager, create_client, set_type, set_main_process,
  chat_server,
}
use thunder_chat.Delivery.{Sent}
use thunder_chat.Listing.{push_back, remove, is_listed, erase_loop}

-- An entry of `m_lstChatManagerSocket`: the null pointer that a failed `NegotiationWithManager` leaves
-- there; a `ClientSocket`, named by its descriptor, which no other open socket has; or a pointer to one
-- that has been deleted, since nothing takes an entry out.
pub data ManagerSocket : Type 0 where
  null_socket : ManagerSocket
  live_socket : ℕ → ManagerSocket
  deleted_socket : ManagerSocket

-- `managers` is `m_lstChatManagerSocket`.
pub record ChatServer : Type 0 where
  pub clients : List Client
  pub conn_count : ℤ
  pub max_user : ℤ
  pub uniq_id : ℕ
  pub managers : List ManagerSocket

-- The constructor `ChatServer(Properties &)`.
unfoldable pub create : ChatServer
create = record { clients = []; conn_count = pos 0; max_user = pos 0; uniq_id = 0; managers = [] }

unfoldable pub set_max_user : ChatServer → ℤ → ChatServer
set_max_user s n = record s { max_user = n }

abbrev pub client_pointer : Client → ℕ
client_pointer c = c.pointer

-- `delete m_cSocket` of `~Client`, as the entries of `m_lstChatManagerSocket` see it.
unfoldable pub delete_socket : Option ℕ → List ManagerSocket → List ManagerSocket
delete_socket socket [] = []
delete_socket none (m ∷ ms) = m ∷ ms
delete_socket (some fd) (null_socket ∷ ms) = null_socket ∷ delete_socket (some fd) ms
delete_socket (some fd) (deleted_socket ∷ ms) = deleted_socket ∷ delete_socket (some fd) ms
delete_socket (some fd) (live_socket other ∷ ms) =
    (if other == fd then deleted_socket else live_socket other) ∷ delete_socket (some fd) ms

-- The socket of the client at an address.
unfoldable pub socket_at : ℕ → List Client → Option ℕ
socket_at p [] = none
socket_at p (c ∷ cs) = let rest = socket_at p cs in if c.pointer == p then c.socket else rest

-- `m_iConnCount++` and `m_iConnCount--`, which no mutex guards.
unfoldable pub count_client : ChatServer → ChatServer
count_client s = record s { conn_count = increment s.conn_count }

unfoldable pub uncount_client : ChatServer → ChatServer
uncount_client s = record s { conn_count = decrement s.conn_count }

-- What `AcceptClient` and `CloseClient` do under `m_lockClient`; `delete` runs `~Client`.
unfoldable pub push_client : ChatServer → Client → ChatServer
push_client s c = record s { clients = push_back s.clients c }

unfoldable pub remove_client : ChatServer → ℕ → Option ChatServer
remove_client s pointer =
    if is_listed client_pointer pointer s.clients
    then some (record s {
      clients = remove client_pointer pointer s.clients;
      managers = delete_socket (socket_at pointer s.clients) s.managers;
    })
    else none

-- `CloseClient`, run to its end without another thread.
unfoldable pub close_client : ChatServer → ℕ → Option ChatServer
close_client s pointer = remove_client s pointer >>= λ t. some (uncount_client t)

-- What `new` and the kernel give for a new connection: the object's address, the time, its empty buffer,
-- and whether `IOMP::AddClient` succeeds.
pub record Fresh : Type 0 where
  pub pointer : ℕ
  pub now : ℕ
  pub buffer : CircularBuff
  pub added : Bool

-- The client that `AcceptClient` makes.
unfoldable pub new_client : ℕ → ClientType → Fresh → Client
new_client fd type new =
    set_main_process
      (set_type (create_client new.pointer (some fd) client_user new.now new.buffer) type)
      chat_server

-- `AcceptClient(Socket *, ENUM_CLIENT_TYPE)`, run to its end without another thread.
unfoldable pub accept_client : ChatServer → ℕ → ClientType → Fresh → Option ChatServer
accept_client s fd type new =
    let s' = push_client (count_client s) (new_client fd type new) in
    if new.added then some s' else close_client s' new.pointer

-- The test of `ThreadAcceptor::Run`.
unfoldable pub is_full : ChatServer → Bool
is_full s = at_least s.conn_count s.max_user

-- What `ThreadAcceptor::Run` and `Run` do with an accepted socket.
unfoldable pub accept_connection : ChatServer → ℕ → Fresh → Option ChatServer
unfolding is_full
accept_connection s fd new = if is_full s then some s else accept_client s fd client_user new

-- `RegisterManager`, with a `Fresh` for each socket.
unfoldable pub register_managers : ChatServer → List ManagerSocket → (ℕ → Fresh) → Option ChatServer
register_managers s [] new = some s
register_managers s (null_socket ∷ sockets) new = none
register_managers s (deleted_socket ∷ sockets) new = none
register_managers s (live_socket fd ∷ sockets) new =
    accept_client s fd client_chat_manager (new fd) >>= λ s'. register_managers s' sockets new

-- `pClient->GetType() == CLIENT_USER`
unfoldable pub is_user : Client → Bool
is_user c = elim c.client_type [ client_user ↦ true | _ ↦ false ]

-- `GetBroadcastTargets`
unfoldable pub get_broadcast_targets : List Client → BroadcastMessage → Option (List ℕ)
unfolding is_user
get_broadcast_targets [] m = some []
get_broadcast_targets (c ∷ cs) m =
    let rest = get_broadcast_targets cs m in
    if is_user c
    then (c.socket >>= λ fd.
        rest >>= λ targets. some (if fd == m.socket then targets else fd ∷ targets))
    else rest

-- The cleared `T_PACKET` of `MessageBroadcastToManagers`, filled in with `n` bytes of a message.
unfoldable pub filled_packet : ℕ → ℕ → List ℕ → Option (List ℕ)
filled_packet uniq_id n bytes =
    store
      (header_bytes (record { command = cmd_chat_broadcast; length = n + 8 })
        ++ (le_bytes 8 uniq_id ++ replicate (max_pdu_size - 12) 0))
      12 bytes

-- It gets `GetMessageSize()` bytes; a negative size is a huge one for `memcpy`.
unfoldable pub relay_packet : ℕ → BroadcastMessage → Option (List ℕ)
relay_packet uniq_id m = elim m.message_size [
  | negsuc n ↦ none
  | pos n ↦ load m.message 0 n >>= filled_packet uniq_id n
]

-- `Write` of the packet to each manager.
unfoldable pub write_to_managers : List ManagerSocket → List ℕ → Option (List Sent)
write_to_managers [] packet = some []
write_to_managers (null_socket ∷ sockets) packet = none
write_to_managers (deleted_socket ∷ sockets) packet = none
write_to_managers (live_socket fd ∷ sockets) packet =
    load packet 0 (pdu_header_size + (header_of packet).length) >>= λ bytes.
    write_to_managers sockets packet >>= λ sents. some ((fd, bytes) ∷ sents)

-- `MessageBroadcastToManagers`
unfoldable pub message_broadcast_to_managers : ChatServer → BroadcastMessage → Option (List Sent)
message_broadcast_to_managers s m = relay_packet s.uniq_id m >>= write_to_managers s.managers

-- The bytes that a `Write` of `GetMessageSize()` bytes of the message sends: none for a negative size.
unfoldable pub message_bytes : BroadcastMessage → Option (List ℕ)
message_bytes m = elim m.message_size [ negsuc n ↦ some [] | pos n ↦ load m.message 0 n ]

-- `CNPUtil::Write` of the message to each target.
unfoldable pub write_to_users : List ℕ → BroadcastMessage → Option (List Sent)
write_to_users [] m = some []
write_to_users (fd ∷ fds) m =
    message_bytes m >>= λ bytes. write_to_users fds m >>= λ sents. some ((fd, bytes) ∷ sents)

-- `MessageBroadcast`
unfoldable pub message_broadcast : ChatServer → BroadcastMessage → Option (List Sent)
message_broadcast s m =
    (elim m.message_type [
      | relayed_message ↦ some []
      | client_chat_message ↦ message_broadcast_to_managers s m
    ])
    >>= λ relayed. get_broadcast_targets s.clients m >>= λ targets.
        write_to_users targets m >>= λ sents. some (relayed ++ sents)

abbrev pub time_alive : ℕ
time_alive = 300 * 1000000

abbrev pub is_idle : ℕ → Client → Bool
is_idle now c = ltb (c.access_time + time_alive) now

-- The `delete` of each client that is in the first list and not in the second.
unfoldable pub delete_sockets : List Client → List Client → List ManagerSocket → List ManagerSocket
delete_sockets [] stay ms = ms
delete_sockets (c ∷ cs) stay ms =
    let rest = delete_sockets cs stay ms in
    if is_listed client_pointer c.pointer stay then rest else delete_socket c.socket rest

-- `HealthCheckUsers`
unfoldable pub health_check_users : ChatServer → ℕ → Option ChatServer
health_check_users s now = erase_loop (is_idle now) s.conn_count s.clients >>= λ (count, clients).
    some (record s {
      clients = clients;
      conn_count = count;
      managers = delete_sockets s.clients clients s.managers;
    })
