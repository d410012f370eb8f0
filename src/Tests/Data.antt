-- ===== src/Tests/Data.antt =====
-- Small buffers and connections.
use thunder_chat.Prelude.{
  ℕ, ◌≡◌, refl, some, List, [], ◌∷◌, ◌++◌, arith, length, replicate, length-replicate,
}
use thunder_chat.CircularBuff.{CircularBuff}
use thunder_chat.CircularBuff.Bounds.{IsValid}
use thunder_chat.Packet.{chat_packet, header_bytes, le_bytes}
use thunder_chat.Client.{Client, ClientType, MainProcess, state_wait}

-- Eight bytes of room, and the spare byte; nothing in it.
abbrev pub empty_eight : CircularBuff
empty_eight = record { head = 0; tail = 0; buffer_size = 8; use_size = 0; buffer = replicate 9 0 }

pub empty_eight-IsValid : IsValid empty_eight
empty_eight-IsValid = record {
  storage = refl;
  head_in = omega arith;
  use_in = omega arith;
  tail_at = refl;
}

-- Three bytes, 1, 2 and 3.
abbrev pub three_bytes : CircularBuff
three_bytes = record {
  head = 0;
  tail = 3;
  buffer_size = 8;
  use_size = 3;
  buffer = 1 ∷ 2 ∷ 3 ∷ replicate 6 0;
}

pub three_bytes-IsValid : IsValid three_bytes
three_bytes-IsValid = record {
  storage = refl;
  head_in = omega arith;
  use_in = omega arith;
  tail_at = refl;
}

-- Six bytes that go round the end of the array.
abbrev pub going_round : CircularBuff
going_round = record { head = 6; tail = 4; buffer_size = 8; use_size = 6; buffer = replicate 9 7 }

pub going_round-IsValid : IsValid going_round
going_round-IsValid = record {
  storage = refl;
  head_in = omega arith;
  use_in = omega arith;
  tail_at = refl;
}

-- A chat packet from the server 5, and part of another packet.
abbrev pub hello_bytes : List ℕ
hello_bytes = 72 ∷ 105 ∷ 10 ∷ []

abbrev pub hello_chat : List ℕ
hello_chat = chat_packet 5 hello_bytes 3

abbrev pub part_bytes : List ℕ
part_bytes = 84 ∷ 6 ∷ []

abbrev pub packet_buffer : CircularBuff
packet_buffer = record {
  head = 0;
  tail = 17;
  buffer_size = 32;
  use_size = 17;
  buffer = hello_chat ++ (part_bytes ++ replicate 16 0);
}

pub packet_buffer-IsValid : IsValid packet_buffer
unfolding chat_packet header_bytes le_bytes
packet_buffer-IsValid = record {
  storage = refl;
  head_in = omega arith;
  use_in = omega arith;
  tail_at = refl;
}

-- The packet alone.
abbrev pub only_packet : CircularBuff
only_packet = record {
  head = 0;
  tail = 15;
  buffer_size = 32;
  use_size = 15;
  buffer = hello_chat ++ replicate 18 0;
}

pub only_packet-IsValid : IsValid only_packet
unfolding chat_packet header_bytes le_bytes
only_packet-IsValid = record {
  storage = refl;
  head_in = omega arith;
  use_in = omega arith;
  tail_at = refl;
}

abbrev pub part_buffer : CircularBuff
part_buffer = record {
  head = 0;
  tail = 2;
  buffer_size = 32;
  use_size = 2;
  buffer = part_bytes ++ replicate 31 0;
}

pub part_buffer-IsValid : IsValid part_buffer
part_buffer-IsValid = record {
  storage = refl;
  head_in = omega arith;
  use_in = omega arith;
  tail_at = refl;
}

-- A connection on descriptor 9 with the given process and buffer.
abbrev pub connection : ClientType → MainProcess → CircularBuff → Client
connection type process buffer = record {
  pointer = 100;
  socket = some 9;
  state = state_wait;
  client_type = type;
  access_time = 0;
  main_process = process;
  buffer = buffer;
}

-- The block of a fresh message.
abbrev pub message_memory : List ℕ
message_memory = replicate 1024 0

pub length-message_memory : length message_memory ≡ 1024
length-message_memory = length-replicate {A = ℕ} 1024 0
