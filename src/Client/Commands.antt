-- ===== src/Client/Commands.antt =====
-- What a call of `ChatUser::ExecuteCommand` (src/ChatUser.cpp) makes of the bytes in the buffer.
use thunder_chat.Prelude.{
  ℕ, ◌≤◌, ◌<◌, ◌≡◌, refl, ap, sym, ◌∙◌, Option, none, some, List, [], arith, length, take,
  take-length, length-drop, length-take_le, drop,
}
use thunder_chat.Prelude.Int.{ℤ, pos, negsuc}
use thunder_chat.Ring.{write_block, take-write_block}
use thunder_chat.CircularBuff.{CircularBuff, get, get_used_size, recv_not_enough}
use thunder_chat.CircularBuff.Bounds.{IsValid, contents, length-contents}
use thunder_chat.CircularBuff.Read.{
  ReadsRight, GetOutcome, not_enough, taken, past_end, spare_byte, get_total,
}
use thunder_chat.Message.{
  BroadcastMessage, max_message_size, create, set_message_size, set_socket_fd, MessageType,
  client_chat_message,
}
use thunder_chat.Client.{
  Client, chat_server, get_packet, execute_user, is_valid_packet, execute_command, execute_manager,
  client_user, client_chat_manager,
}

-- `GetPacket` after a `Get` that has brought `bytes`.
pub get_packet_stored :
    (c : Client) (block bytes : List ℕ) (n : ℕ) (b : CircularBuff)
    → get c.buffer n ≡ some (pos n, bytes, b)
    → length bytes ≤ length block
    → get_packet c block n ≡ some (pos 0, write_block block 0 bytes, record c { buffer = b })
unfolding get_packet
get_packet_stored c block bytes n b e fits = rw e (ground arith)

pub get_packet_outside :
    (c : Client) (block bytes : List ℕ) (n : ℕ) (b : CircularBuff)
    → get c.buffer n ≡ some (pos n, bytes, b)
    → length block < length bytes
    → get_packet c block n ≡ none
unfolding get_packet
get_packet_outside c block bytes n b e over = rw e (ground arith)

pub get_packet_short :
    (c : Client) (block : List ℕ) (n : ℕ)
    → get c.buffer n ≡ some (recv_not_enough, [], c.buffer)
    → get_packet c block n ≡ some (negsuc 0, block, c)
unfolding get_packet
get_packet_short c block n e = rw e refl

-- A `Get` of all that a buffer holds.
record TakesAll (b : CircularBuff) : Type 0 where
  left : CircularBuff
  got_all : get b (get_used_size b) ≡ some (pos (get_used_size b), contents b, left)
  valid : IsValid left
  emptied : get_used_size left ≡ 0

takes_all : (b : CircularBuff) → ReadsRight b b.use_size → GetOutcome b b.use_size → TakesAll b
unfolding get_used_size
takes_all b ok (not_enough few e) = absurd (omega arith)
takes_all b ok (taken b' held right e v c _ _) = record {
  left = b';
  got_all = e ∙ ap (λ l. some (pos b.use_size, l, b')) all;
  valid = v;
  emptied =
      sym (length-contents b')
      ∙ ap length c
      ∙ omega (arith, length-drop b.use_size (contents b), length-contents b);
}
  where
    all : take b.use_size (contents b) ≡ contents b
    all = take-length (contents b) b.use_size (omega (arith, length-contents b))
takes_all b ok (past_end held wrong far e) = absurd (omega (arith, ok))
takes_all b ok (spare_byte held wrong at_end e) = absurd (omega (arith, ok))

-- A message that carries `bytes` to everybody but the client on the descriptor `fd`.
pub record Carries (m : BroadcastMessage) (fd : ℕ) (type : MessageType) (bytes : List ℕ)
    : Type 0 where
  pub size : m.message_size ≡ pos (length bytes)
  pub body : take (length bytes) m.message ≡ bytes
  pub sender : m.socket ≡ fd
  pub kind : m.message_type ≡ type

-- A call of `ExecuteCommand` that queues one message and leaves nothing in the buffer.
pub record QueuesAll (c : Client) (fd : ℕ) (result : Option (ℤ × Client × Option BroadcastMessage))
    : Type 0 where
  pub client : Client
  pub message : BroadcastMessage
  pub result_eq : result ≡ some (pos 0, client, some message)
  pub carries : Carries message fd client_chat_message (contents c.buffer)
  pub valid : IsValid client.buffer
  pub emptied : is_valid_packet client ≡ 0
  pub same_type : client.client_type ≡ c.client_type

user_message :
    (c : Client) (memory : List ℕ) (fd : ℕ)
    → c.socket ≡ some fd
    → c.main_process ≡ chat_server
    → length memory ≡ max_message_size
    → get_used_size c.buffer ≤ max_message_size
    → TakesAll c.buffer
    → QueuesAll c fd (execute_user c memory)
unfolding execute_user create set_message_size set_socket_fd is_valid_packet get_used_size
user_message c memory fd s p len fits t = record {
  client = record c { buffer = t.left };
  message = sent;
  result_eq =
      rw
        (get_packet_stored c memory (contents c.buffer) c.buffer.use_size t.left t.got_all
          (omega (arith, held)))
        (rw s (rw p refl));
  carries = record {
    size = ap pos (sym held);
    body = take-write_block 0 memory 0 (contents c.buffer) (omega (arith, held));
    sender = refl;
    kind = refl;
  };
  valid = t.valid;
  emptied = t.emptied;
  same_type = refl;
}
  where
    held : length (contents c.buffer) ≡ c.buffer.use_size
    held = length-contents c.buffer

    sent : BroadcastMessage
    sent = record {
      message_type = client_chat_message;
      socket = fd;
      message = write_block memory 0 (contents c.buffer);
      message_size = pos c.buffer.use_size;
    }

-- `ExecuteCommand` on a user's connection, with at most `MAX_MESSAGE_SIZE` bytes received in a valid
-- buffer from which `Get` reads them right: it returns 0 and queues one message, which carries exactly
-- those bytes, their number and the descriptor; the buffer is left empty and valid.
pub execute_user_lem :
    (c : Client) (memory : List ℕ) (fd : ℕ)
    → IsValid c.buffer
    → ReadsRight c.buffer (get_used_size c.buffer)
    → c.socket ≡ some fd
    → c.main_process ≡ chat_server
    → length memory ≡ max_message_size
    → get_used_size c.buffer ≤ max_message_size
    → QueuesAll c fd (execute_user c memory)
unfolding get_used_size
execute_user_lem c memory fd v ok s p len fits =
    user_message c memory fd s p len fits
      (takes_all c.buffer ok (get_total c.buffer c.buffer.use_size v))

-- A `Get` of all that a buffer holds: that many bytes, or a copy outside the array.
data GotAll (b : CircularBuff) : Type 0 where
  got :
      (bytes : List ℕ) (left : CircularBuff)
      → get b (get_used_size b) ≡ some (pos (get_used_size b), bytes, left)
      → length bytes ≡ get_used_size b
      → GotAll b
  got_outside : get b (get_used_size b) ≡ none → GotAll b

got_all : (b : CircularBuff) → IsValid b → GetOutcome b b.use_size → GotAll b
unfolding get_used_size
got_all b v (not_enough few e) = absurd (omega (arith, few))
got_all b v (taken left held right e _ _ _ _) =
    got (take b.use_size (contents b)) left e
      (length-take_le b.use_size (contents b) (omega (arith, length-contents b)))
got_all b v (past_end held wrong far e) = got_outside e
got_all b v (spare_byte held wrong at_end e) = got _ _ e (
    length-take_le b.use_size (drop b.head b.buffer)
      (omega (arith, length-drop b.head b.buffer, v.storage, at_end)))

get_packet-none :
    (c : Client) (block : List ℕ) (n : ℕ) → get c.buffer n ≡ none → get_packet c block n ≡ none
unfolding get_packet
get_packet-none c block n e = rw e refl

too_long :
    (c : Client) (memory : List ℕ)
    → length memory ≡ max_message_size
    → max_message_size < get_used_size c.buffer
    → GotAll c.buffer
    → execute_user c memory ≡ none
unfolding execute_user create set_message_size get_used_size
too_long c memory len over (got_outside e) = rw (get_packet-none c memory c.buffer.use_size e) refl
too_long c memory len over (got bytes left e size) =
    rw (get_packet_outside c memory bytes c.buffer.use_size left e (omega (arith, size, over, len)))
      refl

-- With more than `MAX_MESSAGE_SIZE` bytes in a valid buffer, wherever in it they lie, `ExecuteCommand` of
-- a user's connection copies outside a block of memory.
pub execute_user_overflow :
    (c : Client) (memory : List ℕ)
    → IsValid c.buffer
    → length memory ≡ max_message_size
    → max_message_size < get_used_size c.buffer
    → execute_user c memory ≡ none
unfolding get_used_size
execute_user_overflow c memory v len over =
    too_long c memory len over (got_all c.buffer v (get_total c.buffer c.buffer.use_size v))

-- Which body `ExecuteCommand` runs.
pub execute_command_user :
    (c : Client) (memory : List ℕ)
    → c.client_type ≡ client_user
    → execute_command c memory ≡ execute_user c memory
unfolding execute_command
execute_command_user c memory t = ground arith

pub execute_command_manager :
    (c : Client) (memory : List ℕ)
    → c.client_type ≡ client_chat_manager
    → execute_command c memory ≡ execute_manager c memory
unfolding execute_command
execute_command_manager c memory t = ground arith
