-- ===== src/Client/Relayed.antt =====
-- What `ChatUser::ExecuteCommand` (src/ChatUser.cpp) makes of a chat packet that a manager relays.
use thunder_chat.Prelude.{
  ℕ, zero, suc, ◌+◌, ◌≤◌, ◌≡◌, refl, ap, sym, ◌∙◌, Option, some, List, [], ◌∷◌, arith, ◌++◌, length,
  take, drop, set, length-take_le, length-append, length-set, le→leb, lt→ltb, subst,
}
use thunder_chat.Prelude.Int.{ℤ, pos}
use thunder_chat.Ring.{load, write_block, write_block_start, load_first, length-write_block}
use thunder_chat.CircularBuff.Bounds.{contents}
use thunder_chat.Packet.{chat_packet, header_of, header_bytes, le_bytes, cmd_chat_broadcast}
use thunder_chat.Packet.Layout.{header_of-chat_packet, length-chat_packet, header_of-append}
use thunder_chat.Message.{
  BroadcastMessage, max_message_size, relayed_message, set_message, store_byte, create,
  set_message_size, set_socket_fd, set_message_type,
}
use thunder_chat.Client.{
  Client, chat_server, client_chat_manager, execute_manager, execute_command, body_size,
}
use thunder_chat.Client.Commands.{Carries, execute_command_manager}
use thunder_chat.Client.Packets.{IsStraight, IsPacket, in_packet, TakesPacket, next_packet_whole}

take-set :
    (bytes rest : List ℕ) (k : ℕ)
    → length bytes ≡ suc k
    → take (suc k) (set (bytes ++ rest) k 0) ≡ take k bytes ++ (0 ∷ [])
take-set [] rest k e = absurd (omega (arith, e))
take-set (x ∷ xs) rest zero e = refl
take-set (x ∷ xs) rest (suc k) e = ap (◌∷◌ x) (take-set xs rest k (omega (arith, e)))

set_message_lem :
    (m : BroadcastMessage) (bytes after : List ℕ) (k : ℕ)
    → length bytes ≡ suc k
    → length bytes ≤ length m.message
    → set_message m (bytes ++ after) (pos (suc k))
      ≡ some (record m { message = set (write_block m.message 0 bytes) k 0 })
unfolding set_message store_byte
set_message_lem m bytes after k e room =
    rw (ap (load (bytes ++ after) 0) (sym e) ∙ load_first bytes after) (
      rw (le→leb (0 + length bytes) (length m.message) (omega arith)) (
        rw
          (lt→ltb k (length (write_block m.message 0 bytes))
            (omega (arith, e, length-write_block m.message 0 bytes)))
          refl))

-- The packet is one that `next_packet` takes off whole.
pub chat_packet-IsPacket :
    (uniq_id : ℕ) (bytes : List ℕ)
    → length bytes ≤ max_message_size
    → IsPacket (chat_packet uniq_id bytes (length bytes))
chat_packet-IsPacket uniq_id bytes fits = record {
  says =
      ap (λ h. h.length + 4) (header_of-chat_packet uniq_id (length bytes) bytes (omega arith))
      ∙ omega (arith, length-chat_packet uniq_id (length bytes) bytes);
  fits = omega (arith, length-chat_packet uniq_id (length bytes) bytes);
}

-- A call of `ExecuteCommand` that takes a packet off, and queues the bytes for this server's users only.
pub record Relayed (fd : ℕ) (bytes rest : List ℕ)
    (result : Option (ℤ × Client × Option BroadcastMessage)) : Type 0 where
  pub client : Client
  pub message : BroadcastMessage
  pub result_eq : result ≡ some (pos 0, client, some message)
  pub carries : Carries message fd relayed_message bytes
  pub whole_block : length message.message ≡ max_message_size
  pub straight : IsStraight client.buffer
  pub remaining : contents client.buffer ≡ rest

module _ (c : Client) (memory : List ℕ) (fd uniq_id : ℕ) (bytes rest : List ℕ) (k : ℕ)
    (size : length bytes ≡ suc k) (fits : length bytes ≤ max_message_size)
    (len : length memory ≡ max_message_size) (here : c.socket ≡ some fd)
    (process : c.main_process ≡ chat_server)
    (t : TakesPacket c (chat_packet uniq_id bytes (length bytes)) rest) where
  abbrev in_block : List ℕ
  in_block = in_packet (chat_packet uniq_id bytes (length bytes))

  in_block_header :
      header_of in_block ≡ record { command = cmd_chat_broadcast; length = length bytes + 8 }
  in_block_header =
      header_of-append (chat_packet uniq_id bytes (length bytes)) _
        (omega (arith, length-chat_packet uniq_id (length bytes) bytes))
      ∙ header_of-chat_packet uniq_id (length bytes) bytes (omega arith)

  body_size_eq : body_size (length bytes + 8) ≡ pos (suc k)
  unfolding body_size
  body_size_eq = rw (le→leb 8 (length bytes + 8) (omega arith)) (ap pos (omega (arith, size)))

  abbrev sized : BroadcastMessage
  sized = set_message_size (create memory) (pos (suc k))

  ended_block : List ℕ
  ended_block = set (write_block memory 0 bytes) k 0

  message_set :
      set_message sized (drop 12 in_block) (pos (suc k))
      ≡ some (record sized { message = ended_block })
  unfolding chat_packet header_bytes le_bytes set_message_size create ended_block
  message_set = set_message_lem sized bytes _ k size (omega (arith, len))

  ended_body : take (suc k) ended_block ≡ take k bytes ++ (0 ∷ [])
  unfolding ended_block
  ended_body =
      ap (λ l. take (suc k) (set l k 0)) (write_block_start 0 memory bytes (omega (arith, len)))
      ∙ take-set bytes _ k size

  ended_length : length (take k bytes ++ (0 ∷ [])) ≡ suc k
  ended_length =
      omega
        (arith, length-append (take k bytes) (0 ∷ []), length-take_le k bytes (omega (arith, size)))

  relayed : Relayed fd (take k bytes ++ (0 ∷ [])) rest (execute_manager c memory)
  unfolding execute_manager set_socket_fd set_message_type set_message_size ended_block
  relayed = record {
    client = record c { buffer = t.left };
    message = record sized { message = ended_block; socket = fd; message_type = relayed_message };
    result_eq = rw t.result_eq (
        rw (header_of-chat_packet uniq_id (length bytes) bytes (omega arith))
          (rw in_block_header (rw body_size_eq (rw message_set (rw here (rw process refl))))));
    carries = record {
      size = ap pos (sym ended_length);
      body = ap (λ n. take n ended_block) ended_length ∙ ended_body;
      sender = refl;
      kind = refl;
    };
    whole_block =
        length-set (write_block memory 0 bytes) k 0 ∙ length-write_block memory 0 bytes ∙ len;
    straight = t.straight;
    remaining = t.remaining;
  }

-- A connection to a manager holds a chat packet of at least one and at most 1024 bytes, and then `rest`,
-- not going round the end of the array: `ExecuteCommand` takes exactly the packet off and queues one
-- message, marked as relayed, with the manager's descriptor. It carries the packet's bytes except that
-- the last one is 0, whatever it was.
pub execute_command-Relayed :
    (c : Client) (memory : List ℕ) (fd uniq_id : ℕ) (bytes rest : List ℕ) (k : ℕ)
    → c.client_type ≡ client_chat_manager
    → c.main_process ≡ chat_server
    → c.socket ≡ some fd
    → length memory ≡ max_message_size
    → length bytes ≡ suc k
    → length bytes ≤ max_message_size
    → IsStraight c.buffer
    → contents c.buffer ≡ chat_packet uniq_id bytes (length bytes) ++ rest
    → Relayed fd (take k bytes ++ (0 ∷ [])) rest (execute_command c memory)
execute_command-Relayed c memory fd uniq_id bytes rest k type process here len size fits s held =
    subst (Relayed fd (take k bytes ++ (0 ∷ [])) rest) (sym (execute_command_manager c memory type))
      (relayed c memory fd uniq_id bytes rest k size fits len here process (
        next_packet_whole c (chat_packet uniq_id bytes (length bytes)) rest s
          (chat_packet-IsPacket uniq_id bytes fits) held))
