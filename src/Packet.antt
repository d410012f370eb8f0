-- ===== src/Packet.antt =====
-- include/Packet.h: the packets between chat servers and managers. A packet is the list of its bytes;
-- the structs are packed and in the byte order of the host, least significant byte first.
pub mod Layout
use thunder_chat.Prelude.{
  ℕ, zero, suc, ◌+◌, ◌*◌, ◌/◌, ◌%◌, ◌^◌, List, [], ◌∷◌, ◌++◌, get_or, drop, take,
}

abbrev pub max_pdu_size : ℕ
max_pdu_size = 4096

abbrev pub pdu_header_size : ℕ
pdu_header_size = 4

abbrev pub cmd_hello_ds_dsm : ℕ
cmd_hello_ds_dsm = 1802

abbrev pub cmd_hello_dsm_ds : ℕ
cmd_hello_dsm_ds = 1803

abbrev pub cmd_heartbeat_dc_dsm : ℕ
cmd_heartbeat_dc_dsm = 1610

abbrev pub cmd_heartbeat_dsm_dc : ℕ
cmd_heartbeat_dsm_dc = 1611

abbrev pub cmd_chat_broadcast : ℕ
cmd_chat_broadcast = 1620

-- The `k` bytes of an unsigned integer in memory.
unfoldable pub le_bytes : ℕ → ℕ → List ℕ
le_bytes zero n = []
le_bytes (suc k) n = (n % 256) ∷ le_bytes k (n / 256)

-- The unsigned integer that bytes in memory are read as.
unfoldable pub le_value : List ℕ → ℕ
le_value [] = 0
le_value (x ∷ xs) = x + 256 * le_value xs

-- `PACKET_HEADER`
pub record PacketHeader : Type 0 where
  pub command : ℕ
  pub length : ℕ

-- Two `unsigned short`, so the values are stored modulo 2^16.
unfoldable pub header_bytes : PacketHeader → List ℕ
header_bytes h = le_bytes 2 h.command ++ le_bytes 2 h.length

-- `(PACKET_HEADER *)buffer`
unfoldable pub header_of : List ℕ → PacketHeader
header_of bytes = record {
  command = le_value (take 2 bytes);
  length = le_value (take 2 (drop 2 bytes));
}

-- `((Tcmd_CHAT_BROADCAST *)packet.data)->uniqId`, and the same field of both hello bodies.
unfoldable pub uniq_id_of : List ℕ → ℕ
uniq_id_of packet = le_value (take 8 (drop pdu_header_size packet))

-- `sizeof(Tcmd_HELLO_DS_DSM)`, and of `Tcmd_HELLO_DSM_DS` packed to two bytes
abbrev pub hello_ds_dsm_size : ℕ
hello_ds_dsm_size = 8

abbrev pub hello_dsm_ds_size : ℕ
hello_dsm_ds_size = 20

-- `Tcmd_CHAT_BROADCAST`: the bytes of `message` follow the identifier.
unfoldable pub chat_packet : ℕ → List ℕ → ℕ → List ℕ
chat_packet uniq_id message size =
    header_bytes (record { command = cmd_chat_broadcast; length = size + 8 })
    ++ (le_bytes 8 uniq_id ++ message)
