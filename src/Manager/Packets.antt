-- ===== src/Manager/Packets.antt =====
-- The chat packets that src/ThreadWorker.cpp finds in the bytes of a chat server, and whom they go to.
use thunder_chat.Prelude.{
  ℕ, zero, suc, ◌+◌, ◌≤◌, ◌≡◌, refl, ap, ◌∙◌, some, List, [], ◌∷◌, arith, Bool-cases, ◌==◌, inl,
  inr, ◌++◌, length, take, drop, take-append,
}
use thunder_chat.CircularBuff.{CircularBuff}
use thunder_chat.Packet.{le_value, uniq_id_of, header_of, cmd_chat_broadcast, pdu_header_size}
use thunder_chat.Packet.Layout.{header_of-append}
use thunder_chat.Client.Packets.{IsPacket, in_packet}
use thunder_chat.Delivery.{Sent, Delivered}
use thunder_chat.Manager.{ClientChatServer, message_broadcast, packet_sent, update, get_uniq_id}
use thunder_chat.Ring.{load, load_first}
use thunder_chat.Manager.Relay.{server_socket, IsAnother}

-- A whole packet that carries a chat message.
pub record IsChatPacket (packet : List ℕ) : Type 0 where
  pub is_packet : IsPacket packet
  pub command : (header_of packet).command ≡ cmd_chat_broadcast
  pub has_id : 12 ≤ length packet

pub take-drop-append :
    (n k : ℕ) (xs ys : List ℕ) → n + k ≤ length xs → take n (drop k (xs ++ ys)) ≡ take n (drop k xs)
take-drop-append n zero xs ys h = take-append xs ys n (omega arith)
take-drop-append n (suc k) [] ys h = absurd (omega arith)
take-drop-append n (suc k) (x ∷ xs) ys h = take-drop-append n k xs ys (omega arith)

-- The packet as `T_PACKET` holds it says, and sends, what the packet does.
module _ (packet : List ℕ) (p : IsChatPacket packet) where
  pub header_in_packet : header_of (in_packet packet) ≡ header_of packet
  header_in_packet = header_of-append packet _ (omega (arith, p.has_id))

  pub uniq_id_in_packet : uniq_id_of (in_packet packet) ≡ uniq_id_of packet
  unfolding uniq_id_of
  uniq_id_in_packet = ap le_value (take-drop-append 8 4 packet _ (omega (arith, p.has_id)))

  pub packet_sent_whole : packet_sent (in_packet packet) ≡ some packet
  unfolding packet_sent
  packet_sent_whole =
      ap (load (in_packet packet) 0)
        (ap (λ h. pdu_header_size + h.length) header_in_packet ∙ omega (arith, p.is_packet.says))
      ∙ load_first packet _

abbrev pub with_buffer : ClientChatServer → CircularBuff → ClientChatServer
with_buffer s b = record s { client = record s.client { buffer = b } }

-- Whom a packet is relayed to does not depend on the bytes that wait in a buffer.
pub same_relay :
    (s : ClientChatServer) (b : CircularBuff) (servers : List ClientChatServer) (packet : List ℕ)
    → message_broadcast (update (with_buffer s b) servers) packet
      ≡ message_broadcast (update s servers) packet
unfolding update message_broadcast get_uniq_id
same_relay s b [] packet = refl
same_relay s b (t ∷ ts) packet = elim (Bool-cases (t.client.pointer == s.client.pointer)) [
  | inl e ↦ rw e (rw (same_relay s b ts packet) refl)
  | inr e ↦ rw e (rw (same_relay s b ts packet) refl)
]

-- The bytes of whole packets, one after the other, and of what follows them.
abbrev pub stream : List (List ℕ) → List ℕ → List ℕ
stream [] rest = rest
stream (packet ∷ packets) rest = packet ++ stream packets rest

pub data AreChatPackets : List (List ℕ) → Type 0 where
  no_packet : AreChatPackets []
  chat_packets :
      (packet : List ℕ) (packets : List (List ℕ))
      → IsChatPacket packet
      → AreChatPackets packets
      → AreChatPackets (packet ∷ packets)

-- Each packet is sent, byte for byte and in order, to every server but the one whose identifier it has.
pub data RelaysEach (servers : List ClientChatServer) : List (List ℕ) → List Sent → Type 0 where
  none_left : RelaysEach servers [] []
  relays_first :
      (packet : List ℕ) (packets : List (List ℕ)) (sents more : List Sent)
      → Delivered server_socket packet (IsAnother (uniq_id_of packet)) servers sents
      → RelaysEach servers packets more
      → RelaysEach servers (packet ∷ packets) (sents ++ more)
