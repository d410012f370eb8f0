-- ===== src/ChatServer/Writes.antt =====
-- The writes of a broadcast of src/ChatServer.cpp: to the users that it aims at, and to the managers.
use thunder_chat.Prelude.{
  ℕ, ◌+◌, ◌≡◌, ◌≢◌, refl, ap, ◌∙◌, Option, none, some, List, [], ◌∷◌, arith, Bool-cases, ◌==◌,
  ==_iff, inl, inr, true, false,
}
use thunder_chat.Ring.{load}
use thunder_chat.Packet.{header_of}
use thunder_chat.Message.{BroadcastMessage}
use thunder_chat.Client.{Client}
use thunder_chat.Delivery.{Sent, Delivered, no_more, passed_over, sent_to}
use thunder_chat.ChatServer.{
  ManagerSocket, null_socket, live_socket, deleted_socket, is_user, get_broadcast_targets,
  write_to_users, write_to_managers, message_bytes,
}

-- Clients that have sockets.
pub data AreConnected : List Client → Type 0 where
  no_client : AreConnected []
  connected :
      (c : Client) (cs : List Client) (fd : ℕ)
      → c.socket ≡ some fd
      → AreConnected cs
      → AreConnected (c ∷ cs)

abbrev pub client_socket : Client → Option ℕ
client_socket c = c.socket

-- A user, and not the one on the descriptor that the message came from.
pub record IsTarget (m : BroadcastMessage) (c : Client) : Type 0 where
  pub user : is_user c ≡ true
  pub another : c.socket ≢ some m.socket

-- The targets are found, and the message is written to them.
pub record WritesToUsers (m : BroadcastMessage) (bytes : List ℕ) (cs : List Client) : Type 0 where
  pub targets : List ℕ
  pub sents : List Sent
  pub targets_eq : get_broadcast_targets cs m ≡ some targets
  pub sents_eq : write_to_users targets m ≡ some sents
  pub delivered : Delivered client_socket bytes (IsTarget m) cs sents

module _ (m : BroadcastMessage) (bytes : List ℕ) (body : message_bytes m ≡ some bytes) where
  passes_client :
      (c : Client) (cs : List Client)
      → WritesToUsers m bytes cs
      → get_broadcast_targets (c ∷ cs) m ≡ get_broadcast_targets cs m
      → (IsTarget m c → ⊥)
      → WritesToUsers m bytes (c ∷ cs)
  passes_client c cs w same not_it = record {
    targets = w.targets;
    sents = w.sents;
    targets_eq = same ∙ w.targets_eq;
    sents_eq = w.sents_eq;
    delivered = passed_over c cs w.sents not_it w.delivered;
  }

  writes_to_client :
      (c : Client) (cs : List Client) (fd : ℕ)
      → WritesToUsers m bytes cs
      → c.socket ≡ some fd
      → is_user c ≡ true
      → (fd == m.socket) ≡ false
      → WritesToUsers m bytes (c ∷ cs)
  unfolding get_broadcast_targets write_to_users
  writes_to_client c cs fd w here user other = record {
    targets = fd ∷ w.targets;
    sents = (fd, bytes) ∷ w.sents;
    targets_eq = rw user (rw here (rw w.targets_eq (rw other refl)));
    sents_eq = rw body (rw w.sents_eq refl);
    delivered =
        sent_to c cs w.sents fd
          (record { user = user; another = λ same. ground (arith, same, here, other) }) here
          w.delivered;
  }

  pub writes_to_users : (cs : List Client) → AreConnected cs → WritesToUsers m bytes cs
  unfolding get_broadcast_targets write_to_users
  writes_to_users cs no_client = record {
    targets = [];
    sents = [];
    targets_eq = refl;
    sents_eq = refl;
    delivered = no_more;
  }
  writes_to_users cs (connected c ds fd here more) =
      let w = writes_to_users ds more in
      elim (Bool-cases (is_user c)) [
        | inr no_user ↦
            passes_client c ds w (rw no_user refl) (λ t. ground (arith, t.user, no_user))
        | inl user ↦ elim (Bool-cases (fd == m.socket)) [
          | inl same ↦
              passes_client c ds w (rw user (rw here (rw w.targets_eq (rw same refl))))
                (λ t. t.another (here ∙ ap some ((==_iff fd m.socket).0 same)))
          | inr other ↦ writes_to_client c ds fd w here user other
        ]
      ]

-- The managers' sockets, none of them a null pointer or deleted.
pub data AreOpen : List ManagerSocket → Type 0 where
  no_socket : AreOpen []
  open_socket :
      (fd : ℕ) (sockets : List ManagerSocket) → AreOpen sockets → AreOpen (live_socket fd ∷ sockets)

abbrev pub manager_socket : ManagerSocket → Option ℕ
manager_socket null_socket = none
manager_socket deleted_socket = none
manager_socket (live_socket fd) = some fd

pub record WritesToManagers (bytes : List ℕ) (sockets : List ManagerSocket)
    (result : Option (List Sent)) : Type 0 where
  pub sents : List Sent
  pub result_eq : result ≡ some sents
  pub delivered : Delivered manager_socket bytes (λ socket. Unit {0}) sockets sents

pub writes_to_managers :
    (sockets : List ManagerSocket) (packet bytes : List ℕ)
    → AreOpen sockets
    → load packet 0 (4 + (header_of packet).length) ≡ some bytes
    → WritesToManagers bytes sockets (write_to_managers sockets packet)
unfolding write_to_managers
writes_to_managers sockets packet bytes no_socket whole = record {
  sents = [];
  result_eq = refl;
  delivered = no_more;
}
writes_to_managers sockets packet bytes (open_socket fd more os) whole =
    let w = writes_to_managers more packet bytes os whole in
    record {
      sents = (fd, bytes) ∷ w.sents;
      result_eq = rw whole (rw w.result_eq refl);
      delivered = sent_to (live_socket fd) more w.sents fd tt refl w.delivered;
    }
