-- ===== src/Manager/Worker.antt =====
-- What a round of src/ThreadWorker.cpp does with the bytes that a chat server has sent.
use thunder_chat.Prelude.{
  ℕ, zero, suc, ◌+◌, ◌≤◌, ◌<◌, ◌≡◌, refl, ap, sym, ◌∙◌, some, List, [], ◌∷◌, arith, Bool-cases,
  ◌==◌, inl, inr, ◌++◌, length, length-append, append-nil, append_assoc, subst,
}
use thunder_chat.Prelude.Int.{pos}
use thunder_chat.CircularBuff.{CircularBuff, get_used_size, get_total_size}
use thunder_chat.CircularBuff.Bounds.{contents, length-contents}
use thunder_chat.Packet.{uniq_id_of, pdu_header_size}
use thunder_chat.Client.{is_valid_packet, chat_manager}
use thunder_chat.Client.Packets.{
  IsStraight, in_packet, TakesPacket, next_packet_whole, IsPartial, FindsTooFew,
  next_packet_partial,
}
use thunder_chat.Delivery.{Sent}
use thunder_chat.Manager.{
  ClientChatServer, message_broadcast, update, work, work_broadcast, execute_command, Worked,
  rearmed, work_loop,
}
use thunder_chat.Manager.Relay.{AreRegistered, IsAnother, Relays, message_broadcast-Delivered}
use thunder_chat.Manager.Packets.{
  IsChatPacket, header_in_packet, uniq_id_in_packet, packet_sent_whole, with_buffer, same_relay,
  stream, AreChatPackets, no_packet, chat_packets, RelaysEach, none_left, relays_first,
}

-- What lies in the buffer does not go round, and leaves room for a header behind it.
pub record HasRoom (b : CircularBuff) : Type 0 where
  pub straight : IsStraight b
  pub room : b.head + get_used_size b + pdu_header_size ≤ get_total_size b

pub record RelaysAll (s : ClientChatServer) (servers : List ClientChatServer)
    (packets : List (List ℕ)) (rest : List ℕ) (before : List Sent) (worked : Worked) : Type 0 where
  pub left : CircularBuff
  pub sents : List Sent
  pub worked_eq : worked ≡ rearmed (with_buffer s left) (before ++ sents)
  pub relayed : RelaysEach (update s servers) packets sents
  pub remaining : contents left ≡ rest
  pub has_room : HasRoom left

work_broadcast_lem :
    (servers : List ClientChatServer) (s : ClientChatServer) (packet : List ℕ) (sents : List Sent)
    → s.client.main_process ≡ chat_manager
    → message_broadcast (update s servers) packet ≡ some sents
    → work_broadcast servers s packet ≡ some (s, sents)
unfolding work_broadcast
work_broadcast_lem servers s packet sents process e = simp (process, work_broadcast, e)

module _ (ds_max_user : ℕ) (s : ClientChatServer) (servers : List ClientChatServer)
    (process : s.client.main_process ≡ chat_manager) (rs : AreRegistered (update s servers)) where
  relay_turn :
      (b : CircularBuff) (packet rest : List ℕ)
      → IsChatPacket packet
      → (t : TakesPacket (with_buffer s b).client packet rest)
      → (r : Relays packet
          (IsAnother (uniq_id_of packet))
          (update s servers)
          (message_broadcast (update s servers) (in_packet packet)))
      → execute_command ds_max_user servers (with_buffer s b)
        ≡ some (pos 0, with_buffer s t.left, r.sents)
  unfolding execute_command work
  relay_turn b packet rest p t r = rw t.result_eq (
      rw (ap (λ h. h.command) (header_in_packet packet p) ∙ p.command) (
        rw
          (work_broadcast_lem servers (with_buffer s t.left) (in_packet packet) r.sents process
            (same_relay s t.left servers (in_packet packet) ∙ r.result_eq))
          refl))

  relayed_packet :
      (packet : List ℕ)
      → IsChatPacket packet
      → Relays packet
          (IsAnother (uniq_id_of packet))
          (update s servers)
          (message_broadcast (update s servers) (in_packet packet))
  relayed_packet packet p =
      subst
        (λ origin.
          Relays packet (IsAnother origin) (update s servers)
            (message_broadcast (update s servers) (in_packet packet)))
        (uniq_id_in_packet packet p)
        (message_broadcast-Delivered (update s servers) (in_packet packet) packet rs
          (packet_sent_whole packet p))

  room_kept :
      (b : CircularBuff) (packet rest : List ℕ)
      → HasRoom b
      → (t : TakesPacket (with_buffer s b).client packet rest) → HasRoom t.left
  room_kept b packet rest h t = record {
    straight = t.straight;
    room = omega (arith, h.room, t.no_further, t.same_size);
  }

  next_turn :
      (fuel : ℕ) (b left : CircularBuff) (before sents : List Sent)
      → 0 < get_used_size b
      → execute_command ds_max_user servers (with_buffer s b)
        ≡ some (pos 0, with_buffer s left, sents)
      → work_loop (suc fuel) ds_max_user servers (with_buffer s b) before
        ≡ work_loop fuel ds_max_user servers (with_buffer s left) (before ++ sents)
  unfolding work_loop is_valid_packet
  next_turn fuel b left before sents held e = rw e (ground arith)

  last_turn :
      (fuel : ℕ) (b : CircularBuff) (rest : List ℕ) (before : List Sent)
      → HasRoom b
      → contents b ≡ rest
      → IsPartial rest
      → work_loop (suc fuel) ds_max_user servers (with_buffer s b) before
        ≡ rearmed (with_buffer s b) (before ++ [])
  unfolding work_loop is_valid_packet execute_command
  last_turn fuel b rest before h e part =
      let stays : FindsTooFew (with_buffer s b).client =
        next_packet_partial (with_buffer s b).client h.straight (omega (arith, h.room))
          (subst IsPartial (sym e) part) in
      elim (Bool-cases (get_used_size b == 0)) [
        | inl empty ↦ rw empty (ap (rearmed (with_buffer s b)) (sym (append-nil before)))
        | inr some_left ↦ rw some_left (rw stays.result_eq refl)
      ]

  -- A packet is relayed, and the rest of the loop does what it does with the bytes left.
  relays_then :
      (fuel : ℕ) (packet : List ℕ) (packets : List (List ℕ)) (rest : List ℕ) (b : CircularBuff)
      (before : List Sent)
      → IsChatPacket packet
      → HasRoom b
      → contents b ≡ packet ++ stream packets rest
      → ((left : CircularBuff) (sents : List Sent)
          → HasRoom left
          → contents left ≡ stream packets rest
          → RelaysAll s servers packets rest sents
              (work_loop fuel ds_max_user servers (with_buffer s left) sents))
      → RelaysAll s servers
          (packet ∷ packets)
          rest
          before
          (work_loop (suc fuel) ds_max_user servers (with_buffer s b) before)
  unfolding get_used_size
  relays_then fuel packet packets rest b before p h e again = record {
    left = after.left;
    sents = r.sents ++ after.sents;
    worked_eq =
        next_turn fuel b t.left before r.sents held
          (relay_turn b packet (stream packets rest) p t r)
        ∙ after.worked_eq
        ∙ ap (rearmed (with_buffer s after.left)) (append_assoc before r.sents after.sents);
    relayed = relays_first packet packets r.sents after.sents r.delivered after.relayed;
    remaining = after.remaining;
    has_room = after.has_room;
  }
    where
      t : TakesPacket (with_buffer s b).client packet (stream packets rest)
      t =
          next_packet_whole (with_buffer s b).client packet (stream packets rest) h.straight
            p.is_packet e

      r :
          Relays packet
            (IsAnother (uniq_id_of packet))
            (update s servers)
            (message_broadcast (update s servers) (in_packet packet))
      r = relayed_packet packet p

      after :
          RelaysAll s servers packets rest
            (before ++ r.sents)
            (work_loop fuel ds_max_user servers (with_buffer s t.left) (before ++ r.sents))
      after =
          again t.left (before ++ r.sents) (room_kept b packet (stream packets rest) h t)
            t.remaining

      held : 0 < get_used_size b
      held = omega (
        arith,
        p.has_id,
        length-append packet (stream packets rest),
        ap length e,
        length-contents b,
      )

  loop_relays :
      (fuel : ℕ) (packets : List (List ℕ)) (rest : List ℕ) (b : CircularBuff) (before : List Sent)
      → length packets < fuel
      → AreChatPackets packets
      → IsPartial rest
      → HasRoom b
      → contents b ≡ stream packets rest
      → RelaysAll s servers packets rest before
          (work_loop fuel ds_max_user servers (with_buffer s b) before)
  loop_relays zero packets rest b before enough ps part h e = absurd (omega arith)
  loop_relays (suc fuel) packets rest b before enough no_packet part h e = record {
    left = b;
    sents = [];
    worked_eq = last_turn fuel b rest before h e part;
    relayed = none_left;
    remaining = e;
    has_room = h;
  }
  loop_relays (suc fuel) packets rest b before enough (chat_packets packet more p ps) part h e =
      relays_then fuel packet more rest b before p h e (λ left sents room left_eq.
        loop_relays fuel more rest left sents (omega arith) ps part room left_eq)

-- The bytes received from a chat server are whole chat packets and then a part of another, or nothing;
-- they do not go round the end of the array and leave room there for a header; and all the servers are
-- connected, have identifiers below 2^31, and stay in the list meanwhile. Then the worker's round, with more fuel than there are
-- packets, sends each packet, byte for byte and in order, to every server but the one whose identifier
-- the packet has, keeps the bytes of the unfinished packet, and gives the client back to epoll.
pub work_loop-RelaysAll :
    (fuel ds_max_user : ℕ) (s : ClientChatServer) (servers : List ClientChatServer)
    (packets : List (List ℕ)) (rest : List ℕ)
    → s.client.main_process ≡ chat_manager
    → AreRegistered (update s servers)
    → length packets < fuel
    → AreChatPackets packets
    → IsPartial rest
    → HasRoom s.client.buffer
    → contents s.client.buffer ≡ stream packets rest
    → RelaysAll s servers packets rest [] (work_loop fuel ds_max_user servers s [])
work_loop-RelaysAll fuel ds_max_user s servers packets rest process rs enough ps part h e =
    loop_relays ds_max_user s servers process rs fuel packets rest s.client.buffer [] enough ps part
      h e
