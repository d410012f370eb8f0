-- ===== src/ChatServer/Dangling.antt =====
-- `CloseClient` and `MessageBroadcastToManagers` of src/ChatServer.cpp together: the socket of a manager is
-- deleted with its client, and stays in the list of the managers' sockets.
use thunder_chat.Prelude.{
  ℕ, ◌+◌, ◌≡◌, refl, subst, none, some, List, ◌∷◌, arith, Bool-cases, Option-cases, inl, inr, true,
  some-inj, ◌==◌, ==_iff,
}
use thunder_chat.Ring.{load}
use thunder_chat.Packet.{header_of}
use thunder_chat.Message.{BroadcastMessage, client_chat_message}
use thunder_chat.Listing.{is_listed}
use thunder_chat.ChatServer.{
  remove_client, uncount_client, ChatServer, ManagerSocket, null_socket, live_socket,
  deleted_socket, client_pointer, socket_at, delete_socket, close_client, relay_packet,
  write_to_managers, message_broadcast, message_broadcast_to_managers,
}

-- A socket is in the list.
pub data IsManager (fd : ℕ) : List ManagerSocket → Type 0 where
  is_first : (ms : List ManagerSocket) → IsManager fd (live_socket fd ∷ ms)
  is_later : (m : ManagerSocket) (ms : List ManagerSocket) → IsManager fd ms → IsManager fd (m ∷ ms)

-- A pointer that cannot be called through is in the list.
data IsBroken : List ManagerSocket → Type 0 where
  broken_first : (ms : List ManagerSocket) → IsBroken (deleted_socket ∷ ms)
  broken_later : (m : ManagerSocket) (ms : List ManagerSocket) → IsBroken ms → IsBroken (m ∷ ms)

delete_socket-IsBroken :
    (fd : ℕ) (ms : List ManagerSocket) → IsManager fd ms → IsBroken (delete_socket (some fd) ms)
unfolding delete_socket
delete_socket-IsBroken fd _ (is_first ms) =
    let same : (fd == fd) ≡ true = (==_iff fd fd).1 refl in
    rw same (broken_first (delete_socket (some fd) ms))
delete_socket-IsBroken fd _ (is_later null_socket ms there) =
    broken_later null_socket _ (delete_socket-IsBroken fd ms there)
delete_socket-IsBroken fd _ (is_later deleted_socket ms there) =
    broken_later deleted_socket _ (delete_socket-IsBroken fd ms there)
delete_socket-IsBroken fd _ (is_later (live_socket other) ms there) =
    broken_later _ _ (delete_socket-IsBroken fd ms there)

write_to_managers-none :
    (ms : List ManagerSocket) (packet : List ℕ) → IsBroken ms → write_to_managers ms packet ≡ none
unfolding write_to_managers
write_to_managers-none _ packet (broken_first ms) = refl
write_to_managers-none _ packet (broken_later null_socket ms there) = refl
write_to_managers-none _ packet (broken_later deleted_socket ms there) = refl
write_to_managers-none _ packet (broken_later (live_socket fd) ms there) =
    let fails = write_to_managers-none ms packet there in
    elim (Option-cases (load packet 0 (4 + (header_of packet).length))) [
      | inl off ↦ rw off refl
      | inr (bytes, ok) ↦ rw ok (rw fails refl)
    ]

broadcast_fails :
    (s : ChatServer) (m : BroadcastMessage)
    → m.message_type ≡ client_chat_message
    → IsBroken s.managers
    → message_broadcast s m ≡ none
unfolding message_broadcast message_broadcast_to_managers
broadcast_fails s m kind broken = rw kind (elim (Option-cases (relay_packet s.uniq_id m)) [
  | inl off ↦ rw off refl
  | inr (packet, ok) ↦ rw ok (rw (write_to_managers-none s.managers packet broken) refl)
])

-- The fault: once `CloseClient` has closed the client on a manager's socket, `MessageBroadcast` of any
-- user's message calls through a dangling pointer.
pub close_client-Dangles :
    (s s' : ChatServer) (pointer fd : ℕ) (m : BroadcastMessage)
    → socket_at pointer s.clients ≡ some fd
    → IsManager fd s.managers
    → close_client s pointer ≡ some s'
    → m.message_type ≡ client_chat_message
    → message_broadcast s' m ≡ none
unfolding close_client remove_client uncount_client
close_client-Dangles s s' pointer fd m socket registered e kind =
    elim (Bool-cases (is_listed client_pointer pointer s.clients)) [
      | inr gone ↦ absurd (ground (arith, e, gone))
      | inl there ↦ broadcast_fails s' m kind (
          subst (λ t. IsBroken t.managers) (some-inj (rw there at e))
            (rw socket (delete_socket-IsBroken fd s.managers registered)))
    ]
