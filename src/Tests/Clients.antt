-- ===== src/Tests/Clients.antt =====
-- The connections of a chat server at concrete inputs.
use thunder_chat.Prelude.{ℕ, ◌≡◌, refl, [], ◌∷◌, arith, replicate, length-replicate, inl}
use thunder_chat.Kernel.{read_failed, eagain, reads, concat}
use thunder_chat.CircularBuff.{CircularBuff, get_used_size, get_total_size, get_free_size}
use thunder_chat.CircularBuff.Bounds.{IsValid}
use thunder_chat.Packet.{chat_packet, header_bytes, le_bytes, header_of, le_value}
use thunder_chat.Client.{Client, client_user, client_chat_manager, chat_server, execute_command}
use thunder_chat.Receiver.Overflow.{receive_round_overflow}
use thunder_chat.Client.Packets.{IsStraight, IsPacket, TakesPacket, next_packet_whole}
use thunder_chat.Client.Relayed.{Relayed, execute_command-Relayed}
use thunder_chat.Receiver.{receive_round, execute_loop, running, crashed}
use thunder_chat.Receiver.Messages.{Broadcasts, receive_round-Broadcasts}
use thunder_chat.Receiver.Stuck.{execute_loop-running}
use thunder_chat.Tests.Data.{
  empty_eight, empty_eight-IsValid, three_bytes, packet_buffer, packet_buffer-IsValid, part_buffer,
  part_buffer-IsValid, part_bytes, hello_bytes, hello_chat, connection, message_memory,
  length-message_memory,
}

abbrev user : Client
user = connection client_user chat_server three_bytes

-- A user whose 1024 bytes wait.
abbrev long_buffer : CircularBuff
long_buffer = record {
  head = 0;
  tail = 1024;
  buffer_size = 2000;
  use_size = 1024;
  buffer = replicate 2001 65;
}

long_buffer-IsValid : IsValid long_buffer
long_buffer-IsValid = record {
  storage = length-replicate {A = ℕ} 2001 65;
  head_in = omega arith;
  use_in = omega arith;
  tail_at = refl;
}

receive_round_overflow_example :
    receive_round 1
      (λ i. message_memory)
      (connection client_user chat_server long_buffer)
      1
      (reads ((66, []) ∷ []) (read_failed eagain ∷ []))
    ≡ crashed
unfolding get_used_size get_free_size concat
receive_round_overflow_example =
    receive_round_overflow 0 (λ i. message_memory) (connection client_user chat_server long_buffer)
      1 ((66, []) ∷ []) [] long_buffer-IsValid refl (λ i. length-message_memory) (omega arith)
      (omega arith) (omega arith) (omega arith) (omega arith) (omega arith)

abbrev manager : Client
manager = connection client_chat_manager chat_server packet_buffer

packet_buffer-IsStraight : IsStraight packet_buffer
unfolding get_used_size get_total_size
packet_buffer-IsStraight = record { valid = packet_buffer-IsValid; straight = omega arith }

hello_chat-IsPacket : IsPacket hello_chat
unfolding chat_packet header_bytes le_bytes header_of le_value
hello_chat-IsPacket = record { says = refl; fits = omega arith }

next_packet_whole_example : TakesPacket manager hello_chat part_bytes
unfolding chat_packet header_bytes le_bytes
next_packet_whole_example =
    next_packet_whole manager hello_chat part_bytes packet_buffer-IsStraight hello_chat-IsPacket
      refl

abbrev waiting_manager : Client
waiting_manager = connection client_chat_manager chat_server part_buffer

part_buffer-IsStraight : IsStraight part_buffer
unfolding get_used_size get_total_size
part_buffer-IsStraight = record { valid = part_buffer-IsValid; straight = omega arith }

execute_loop-running_example : execute_loop 1000 (λ i. message_memory) waiting_manager [] ≡ running
unfolding get_total_size get_used_size
execute_loop-running_example =
    execute_loop-running 1000 (λ i. message_memory) waiting_manager refl part_buffer-IsStraight
      (omega arith) (omega arith) (inl (omega arith))

execute_command-Relayed_example :
    Relayed 9 (72 ∷ 105 ∷ 0 ∷ []) part_bytes (execute_command manager message_memory)
unfolding chat_packet header_bytes le_bytes
execute_command-Relayed_example =
    execute_command-Relayed manager message_memory 9 5 hello_bytes part_bytes 2 refl refl refl
      length-message_memory refl (omega arith) packet_buffer-IsStraight refl

abbrev idle_user : Client
idle_user = connection client_user chat_server empty_eight

receive_round-Broadcasts_example : Broadcasts 9 (4 ∷ 5 ∷ []) (
    receive_round 2
      (λ i. message_memory)
      idle_user
      2
      (reads ((4, 5 ∷ []) ∷ []) (read_failed eagain ∷ [])))
unfolding get_used_size get_total_size get_free_size concat
receive_round-Broadcasts_example =
    receive_round-Broadcasts 0 (λ i. message_memory) idle_user 9 2 ((4, 5 ∷ []) ∷ []) []
      (record {
        valid = empty_eight-IsValid;
        none_held = refl;
        type = refl;
        connected = refl;
        process = refl;
      })
      (λ i. length-message_memory)
      (record {
        some_bytes = omega arith;
        fits = omega arith;
        free = omega arith;
        unbroken = inl (omega arith);
      })
      (omega arith) (omega arith)
