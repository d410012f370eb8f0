-- ===== src/ChatServer/Negotiation.antt =====
-- How a chat server greets its managers: NegotiationWithManager and ConnectToMgr of src/ChatServer.cpp.
use thunder_chat.Prelude.{
  ℕ, ◌-◌, ◌^◌, Option, none, some, List, [], ◌∷◌, ◌++◌, if◌then◌else◌, length, take, drop,
  replicate, ltb,
}
use thunder_chat.Prelude.Int.{ℤ, pos, negsuc, is_negative}
use thunder_chat.Packet.{
  header_bytes, le_bytes, le_value, cmd_hello_ds_dsm, hello_ds_dsm_size, max_pdu_size,
}
use thunder_chat.ChatServer.{ChatServer, ManagerSocket, null_socket, live_socket, set_max_user}

-- What the network answers: whether `Connect` succeeds, with the descriptor; what `Write` and `Recv`
-- return; and the bytes received.
pub record Answers : Type 0 where
  pub connected : Option ℕ
  pub written : ℤ
  pub recv_result : ℤ
  pub received : List ℕ

-- A `uint32_t` assigned to an `int`.
unfoldable pub int_of_u32 : ℕ → ℤ
int_of_u32 n = if ltb n (2 ^ 31) then pos n else negsuc (2 ^ 32 - 1 - n)

-- The hello packet: `PDUHEADERSIZE + sizeof(Tcmd_HELLO_DS_DSM)` bytes of it are sent.
unfoldable pub hello_request : ℕ → List ℕ
hello_request uniq_id =
    header_bytes (record { command = cmd_hello_ds_dsm; length = hello_ds_dsm_size })
    ++ le_bytes 8 uniq_id

-- `iMaxUser` of the cleared packet in which the answer lies.
unfoldable pub answered_max_user : List ℕ → ℤ
unfolding int_of_u32
answered_max_user received =
    int_of_u32
      (le_value (take 4 (drop 12 (received ++ replicate (max_pdu_size - length received) 0))))

-- `NegotiationWithManager`; `stamp` is `CNPUtil::GetUnixTime() + getpid()`. The result is the socket, or
-- null.
unfoldable pub negotiate : ChatServer → ℕ → Answers → ChatServer × Option ℕ
negotiate s stamp a = elim a.connected [
  | none ↦ (record s { uniq_id = stamp }, none)
  | some fd ↦
      if is_negative a.written
      then (record s { uniq_id = stamp }, none)
      else if is_negative a.recv_result
      then (record s { uniq_id = stamp }, none)
      else (set_max_user (record s { uniq_id = stamp }) (answered_max_user a.received), some fd)
]

-- The pointer that `NegotiationWithManager` returns.
unfoldable pub entry : Option ℕ → ManagerSocket
entry none = null_socket
entry (some fd) = live_socket fd

-- The loop of `ConnectToMgr`, with a stamp and the answers for each address.
unfoldable pub connect_to_managers : ChatServer → List (ℕ × Answers) → ChatServer
unfolding entry
connect_to_managers s [] = s
connect_to_managers s ((stamp, a) ∷ more) =
    let (t, socket) = negotiate s stamp a in
    connect_to_managers (record t { managers = t.managers ++ (entry socket ∷ []) }) more
