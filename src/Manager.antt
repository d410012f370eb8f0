-- ===== src/Manager.antt =====
-- src/ChatManager.cpp with src/ClientChatServer.cpp and src/ThreadWorker.cpp: the manager, which relays
-- the messages of each chat server to the others. A connection is one object, named by its address: the
-- list of connections and the worker threads share it.
pub mod Loop
pub mod LoopSafety
pub mod Relay
pub mod Packets
pub mod Worker
pub mod Hello
pub mod Accounts
pub mod Threads
pub mod Connections
use thunder_chat.Prelude.{
  ℕ, zero, suc, ◌+◌, ◌-◌, ◌*◌, Option, none, some, List, [], ◌∷◌, ◌++◌, Bool, true, false, ◌==◌,
  leb, ltb, if◌then◌else◌, ◌>>=◌, take, replicate, length,
}
use thunder_chat.Prelude.Int.{ℤ, pos, negsuc, is_negative, is_positive}
use thunder_chat.Prelude.Words.{int_of_u64}
use thunder_chat.Packet.{
  header_of, uniq_id_of, header_bytes, le_bytes, pdu_header_size, cmd_chat_broadcast,
  cmd_hello_ds_dsm, cmd_hello_dsm_ds, cmd_heartbeat_dc_dsm, cmd_heartbeat_dsm_dc, hello_dsm_ds_size,
}
use thunder_chat.CircularBuff.{CircularBuff}
use thunder_chat.Ring.{load}
use thunder_chat.Delivery.{Sent}
use thunder_chat.Client.{
  Client, ClientType, client_user, client_chat_server, MainProcess, no_process, chat_server,
  chat_manager, next_packet, is_valid_packet, set_type, set_state, set_main_process, state_wait,
  create_client,
}

-- `ClientChatServer`: `uniq_id` is `m_uniqId`.
pub record ClientChatServer : Type 0 where
  pub client : Client
  pub uniq_id : ℕ

-- `GetUniqId()`, an `int`, as the comparison with a `uint64_t` converts it.
unfoldable pub get_uniq_id : ClientChatServer → ℕ
get_uniq_id s = int_of_u64 s.uniq_id

-- The bytes that a `Write` of `PDUHEADERSIZE + header.length` bytes of a `T_PACKET` reads.
unfoldable pub packet_sent : List ℕ → Option (List ℕ)
packet_sent packet = load packet 0 (pdu_header_size + (header_of packet).length)

-- `ChatManager::MessageBroadcast`, on connections of which none is deleted while it runs: it takes no mutex.
unfoldable pub message_broadcast : List ClientChatServer → List ℕ → Option (List Sent)
unfolding get_uniq_id
message_broadcast [] packet = some []
message_broadcast (s ∷ servers) packet =
    let rest = message_broadcast servers packet in
    if get_uniq_id s == uniq_id_of packet
    then rest
    else (s.client.socket >>= λ fd.
        packet_sent packet >>= λ bytes. rest >>= λ sents. some ((fd, bytes) ∷ sents))

-- The list of connections with the present state of one of them.
unfoldable pub update : ClientChatServer → List ClientChatServer → List ClientChatServer
update s [] = []
update s (t ∷ ts) = (if t.client.pointer == s.client.pointer then s else t) ∷ update s ts

-- The acknowledgement of `WorkChatServerHello`: `Tcmd_HELLO_DSM_DS` with the time left zero.
unfoldable pub hello_packet : ℕ → ℕ → List ℕ
hello_packet uniq_id max_user =
    header_bytes (record { command = cmd_hello_dsm_ds; length = hello_dsm_ds_size })
    ++ (le_bytes 8 uniq_id ++ (le_bytes 4 max_user ++ replicate 8 0))

-- `WorkChatServerHello`; `ds_max_user` is what `SetDS` stores.
unfoldable pub work_hello : ℕ → ClientChatServer → List ℕ → Option (ClientChatServer × List Sent)
unfolding hello_packet
work_hello ds_max_user s packet =
    let max_user : ℕ = elim s.client.main_process [ chat_manager ↦ ds_max_user | _ ↦ 0 ] in
    let s' : ClientChatServer = record {
      client = set_type s.client client_chat_server;
      uniq_id = uniq_id_of packet;
    } in
    s.client.socket >>= λ fd. some (s', (fd, hello_packet (uniq_id_of packet) max_user) ∷ [])

-- `WorkDSMPing`
unfoldable pub work_ping : ClientChatServer → Option (ClientChatServer × List Sent)
work_ping s = s.client.socket >>= λ fd.
    some (s, (fd, header_bytes (record { command = cmd_heartbeat_dsm_dc; length = 0 })) ∷ [])

-- `ClientChatServer::MessageBroadcast`
unfoldable pub work_broadcast :
    List ClientChatServer → ClientChatServer → List ℕ → Option (ClientChatServer × List Sent)
work_broadcast servers s packet = elim s.client.main_process [
  | chat_manager ↦ message_broadcast (update s servers) packet >>= λ sents. some (s, sents)
  | _ ↦ some (s, [])
]

-- The `switch` of `ExecuteCommand`, on the packet in `T_PACKET`.
unfoldable pub work :
    ℕ → List ClientChatServer → ClientChatServer → List ℕ → Option (ClientChatServer × List Sent)
work ds_max_user servers s packet =
    let command = (header_of packet).command in
    if command == cmd_chat_broadcast
    then work_broadcast servers s packet
    else if command == cmd_hello_ds_dsm
    then work_hello ds_max_user s packet
    else if command == cmd_heartbeat_dc_dsm
    then work_ping s
    else some (s, [])

-- `ClientChatServer::ExecuteCommand`
unfoldable pub execute_command :
    ℕ → List ClientChatServer → ClientChatServer → Option (ℤ × ClientChatServer × List Sent)
execute_command ds_max_user servers s = next_packet s.client >>= λ (header, code, packet, c).
    let s' = record s { client = c } in
    if is_negative code
    then some (negsuc 0, s', [])
    else (work ds_max_user servers s' packet >>= λ (t, sents). some (pos 0, t, sents))

-- How the loop of `ThreadWorker::Run` over one client's bytes ends: it leaves the connection for epoll,
-- having sent what it has; or in a fault; or it has not ended when the fuel has.
pub data Worked : Type 0 where
  rearmed : ClientChatServer → List Sent → Worked
  crashed : Worked
  running : Worked

after_command :
    (ClientChatServer → List Sent → Worked)
    → List Sent
    → Option (ℤ × ClientChatServer × List Sent)
    → Worked
after_command loop sents none = crashed
after_command loop sents (some (code, s, more)) =
    let rest = loop s (sents ++ more) in
    if is_negative code then rearmed s (sents ++ more) else rest

-- `while ((iPacketLen = pClient->IsValidPacket()) > 0)`, left by `break` when `ExecuteCommand` fails.
pub work_loop : ℕ → ℕ → List ClientChatServer → ClientChatServer → List Sent → Worked
unfolding after_command
work_loop zero ds_max_user servers s sents = running
work_loop (suc fuel) ds_max_user servers s sents =
    if is_valid_packet s.client == 0
    then rearmed s sents
    else after_command (work_loop fuel ds_max_user servers) sents
        (execute_command ds_max_user servers s)
