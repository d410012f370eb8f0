-- ===== src/Manager/Relay.antt =====
-- To whom src/ChatManager.cpp relays a packet.
use thunder_chat.Prelude.{
  ℕ, ◌-◌, ◌^◌, ◌<◌, ◌≡◌, ◌≢◌, refl, Option, some, List, [], ◌∷◌, arith, Bool-cases, ◌==◌, inl, inr,
  true, false,
}
use thunder_chat.Prelude.Words.{int_of_u64_small, int_of_u64_between}
use thunder_chat.Packet.{uniq_id_of}
use thunder_chat.Delivery.{Sent, Delivered, no_more, passed_over, sent_to}
use thunder_chat.Manager.{ClientChatServer, message_broadcast, packet_sent, get_uniq_id}

-- Connected servers, with identifiers that an `int` holds.
pub data AreRegistered : List ClientChatServer → Type 0 where
  no_one : AreRegistered []
  registered :
      (s : ClientChatServer) (ss : List ClientChatServer) (fd : ℕ)
      → s.client.socket ≡ some fd
      → s.uniq_id < 2 ^ 31
      → AreRegistered ss
      → AreRegistered (s ∷ ss)

-- Connected servers, with any identifiers.
pub data AreConnected : List ClientChatServer → Type 0 where
  no_one : AreConnected []
  connected :
      (s : ClientChatServer) (ss : List ClientChatServer) (fd : ℕ)
      → s.client.socket ≡ some fd
      → AreConnected ss
      → AreConnected (s ∷ ss)

abbrev pub server_socket : ClientChatServer → Option ℕ
server_socket s = s.client.socket

abbrev pub IsAnother : ℕ → ClientChatServer → Type 0
IsAnother origin s = s.uniq_id ≢ origin

-- The relay succeeds, and has delivered `bytes`.
pub record Relays (bytes : List ℕ) (gets : ClientChatServer → Type 0)
    (servers : List ClientChatServer) (result : Option (List Sent)) : Type 0 where
  pub sents : List Sent
  pub result_eq : result ≡ some sents
  pub delivered : Delivered server_socket bytes gets servers sents

module _ (packet bytes : List ℕ) (whole : packet_sent packet ≡ some bytes)
    (gets : ClientChatServer → Type 0) (s : ClientChatServer) (ss : List ClientChatServer)
    (r : Relays bytes gets ss (message_broadcast ss packet)) where
  sends_one :
      (fd : ℕ)
      → s.client.socket ≡ some fd
      → gets s
      → (get_uniq_id s == uniq_id_of packet) ≡ false
      → Relays bytes gets (s ∷ ss) (message_broadcast (s ∷ ss) packet)
  unfolding message_broadcast
  sends_one fd here g e = record {
    sents = (fd, bytes) ∷ r.sents;
    result_eq = rw e (rw here (rw whole (rw r.result_eq refl)));
    delivered = sent_to s ss r.sents fd g here r.delivered;
  }

  passes_one :
      (gets s → ⊥)
      → (get_uniq_id s == uniq_id_of packet) ≡ true
      → Relays bytes gets (s ∷ ss) (message_broadcast (s ∷ ss) packet)
  unfolding message_broadcast
  passes_one g e = record {
    sents = r.sents;
    result_eq = rw e r.result_eq;
    delivered = passed_over s ss r.sents g r.delivered;
  }

nothing_sent :
    (packet bytes : List ℕ) (gets : ClientChatServer → Type 0)
    → Relays bytes gets [] (message_broadcast [] packet)
unfolding message_broadcast
nothing_sent packet bytes gets = record { sents = []; result_eq = refl; delivered = no_more }

-- All the servers in the list are connected and have identifiers below 2^31, and the packet's length
-- lies within `T_PACKET`: then the manager sends the packet's bytes, in the order of the list, to each
-- server whose identifier is not the one in the packet, and to no other.
pub message_broadcast-Delivered :
    (servers : List ClientChatServer) (packet bytes : List ℕ)
    → AreRegistered servers
    → packet_sent packet ≡ some bytes
    → Relays bytes (IsAnother (uniq_id_of packet)) servers (message_broadcast servers packet)
unfolding get_uniq_id
message_broadcast-Delivered servers packet bytes no_one whole = nothing_sent packet bytes _
message_broadcast-Delivered servers packet bytes (registered s ss fd here small rs) whole =
    let rest = message_broadcast-Delivered ss packet bytes rs whole in
    elim (Bool-cases (get_uniq_id s == uniq_id_of packet)) [
      | inl same ↦
          passes_one packet bytes whole _ s ss rest
            (λ other. other (ground (arith, same, int_of_u64_small s.uniq_id small))) same
      | inr different ↦
          sends_one packet bytes whole _ s ss rest fd here
            (λ same. ground (arith, same, different, int_of_u64_small s.uniq_id small)) different
    ]

-- An identifier from 2^31 up to (not including) 2^64 - 2^31 is no value of an `int`: when a packet that
-- lies within its `T_PACKET` has such a one, and all connections in the list have sockets and stay there
-- meanwhile, the manager sends it to every server in the list, the one that it came from included.
pub message_broadcast-echoes :
    (servers : List ClientChatServer) (packet bytes : List ℕ)
    → AreConnected servers
    → packet_sent packet ≡ some bytes
    → 2 ^ 31 - 1 < uniq_id_of packet
    → uniq_id_of packet < 2 ^ 64 - 2 ^ 31
    → Relays bytes (λ s. Unit) servers (message_broadcast servers packet)
unfolding get_uniq_id
message_broadcast-echoes servers packet bytes no_one whole above below = nothing_sent packet bytes _
message_broadcast-echoes servers packet bytes (connected s ss fd has_socket cs) whole above below =
    sends_one packet bytes whole _ s ss
      (message_broadcast-echoes ss packet bytes cs whole above below) fd has_socket tt
      (ground (arith, int_of_u64_between s.uniq_id (uniq_id_of packet) above below))
