-- ===== src/CircularBuff/Header.antt =====
-- `GetHeader` of src/CircularBuff.cpp.
use thunder_chat.Prelude.{◌+◌, ◌≤◌, ◌≡◌, ap, ◌∙◌, some, take, drop, arith}
use thunder_chat.CircularBuff.{CircularBuff, get_used_size, get_header, packet_header_size}
use thunder_chat.CircularBuff.Bounds.{IsValid, contents}
use thunder_chat.CircularBuff.Read.{ReadsRight, read_out-oldest, read_out_block, oldest-take}

-- `GetHeader` of a valid buffer that holds a header, of at least four bytes, returns its four oldest
-- bytes when they end before the end of the array or `m_iTail + 4 < m_iHead`.
pub get_header_lem :
    (b : CircularBuff)
    → IsValid b
    → packet_header_size ≤ get_used_size b
    → ReadsRight b packet_header_size
    → get_header b ≡ some (take packet_header_size (contents b))
unfolding get_header get_used_size
get_header_lem b v held ok =
    read_out-oldest b v packet_header_size (omega (arith, v.use_in)) ok
    ∙ ap some (oldest-take b v packet_header_size held)

-- `GetHeader` where the array has four bytes from the head on, whether or not they have been received.
pub get_header_block :
    (b : CircularBuff)
    → IsValid b
    → b.head + packet_header_size ≤ b.buffer_size
    → get_header b ≡ some (take packet_header_size (drop b.head b.buffer))
unfolding get_header
get_header_block b v room = read_out_block b v packet_header_size (omega arith) room
