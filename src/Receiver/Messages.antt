-- ===== src/Receiver/Messages.antt =====
-- What a client writes is broadcast: a round of src/ThreadReceiver.cpp for a user's connection.
use thunder_chat.Prelude.{
  ℕ, suc, ◌+◌, ◌*◌, ◌≤◌, ◌<◌, ◌≡◌, ap, sym, ◌∙◌, subst, Option, some, List, [], ◌∷◌, ◌++◌, arith,
  length, ◌⊎◌, length-zero,
}
use thunder_chat.Prelude.Int.{ℤ, pos, is_positive_pos}
use thunder_chat.Kernel.{ReadResult, read_failed, eagain, Chunk, concat, reads}
use thunder_chat.CircularBuff.{CircularBuff, get_used_size, get_free_size, get_total_size}
use thunder_chat.CircularBuff.Bounds.{IsValid, contents, length-contents}
use thunder_chat.CircularBuff.Read.{ReadsRight, ReadsRight-short}
use thunder_chat.CircularBuff.Fill.{Filled, FillOutcome, dropped, filled, fill_total}
use thunder_chat.Message.{BroadcastMessage, max_message_size, client_chat_message}
use thunder_chat.Client.{
  Client, client_user, chat_server, execute_command, execute_user, is_valid_packet,
}
use thunder_chat.Client.Commands.{Carries, QueuesAll, execute_user_lem, execute_command_user}
use thunder_chat.Receiver.{Round, rearmed, execute_loop, queue, after_fill, receive_round}

-- A round that queues one message of `bytes` and leaves the client's buffer empty and valid.
pub record Broadcasts (fd : ℕ) (bytes : List ℕ) (round : Round) : Type 0 where
  pub client : Client
  pub message : BroadcastMessage
  pub round_eq : round ≡ rearmed client (message ∷ [])
  pub carries : Carries message fd client_chat_message bytes
  pub valid : IsValid client.buffer
  pub emptied : get_used_size client.buffer ≡ 0

loop_end :
    (fuel : ℕ) (memory : ℕ → List ℕ) (c : Client) (ms : List BroadcastMessage)
    → is_valid_packet c ≡ 0
    → execute_loop (suc fuel) memory c ms ≡ rearmed c ms
unfolding execute_loop
loop_end fuel memory c ms e = ground arith

pub loop_turn :
    (fuel : ℕ) (memory : ℕ → List ℕ) (c c' : Client) (ms : List BroadcastMessage) (code : ℤ)
    (m : Option BroadcastMessage)
    → 0 < is_valid_packet c
    → execute_command c (memory fuel) ≡ some (code, c', m)
    → execute_loop (suc fuel) memory c ms ≡ execute_loop fuel memory c' (queue ms m)
unfolding execute_loop
loop_turn fuel memory c c' ms code m held e = rw e (ground arith)

-- One turn of the loop queues the message, and the next one ends it.
loop_queues :
    (fuel : ℕ) (memory : ℕ → List ℕ) (c : Client) (fd : ℕ)
    → c.client_type ≡ client_user
    → 0 < is_valid_packet c
    → QueuesAll c fd (execute_user c (memory (suc fuel)))
    → Broadcasts fd (contents c.buffer) (execute_loop (suc (suc fuel)) memory c [])
unfolding queue is_valid_packet get_used_size
loop_queues fuel memory c fd t held q = record {
  client = q.client;
  message = q.message;
  round_eq =
      loop_turn (suc fuel) memory c q.client [] (pos 0) (some q.message) held
        (execute_command_user c (memory (suc fuel)) t ∙ q.result_eq)
      ∙ loop_end fuel memory q.client (q.message ∷ []) q.emptied;
  carries = q.carries;
  valid = q.valid;
  emptied = q.emptied;
}

-- A user's connection to a chat server between two messages.
pub record IsIdleUser (c : Client) (fd : ℕ) : Type 0 where
  pub valid : IsValid c.buffer
  pub none_held : get_used_size c.buffer ≡ 0
  pub type : c.client_type ≡ client_user
  pub connected : c.socket ≡ some fd
  pub process : c.main_process ≡ chat_server

-- A message that the buffer takes in without going wrong.
pub record IsShort (c : Client) (n : ℕ) : Type 0 where
  pub some_bytes : 0 < n
  pub fits : n ≤ max_message_size
  pub free : n ≤ get_free_size c.buffer
  pub unbroken : (c.buffer.head + n ≤ get_total_size c.buffer) ⊎ (2 * n < get_total_size c.buffer)

module _ (fuel : ℕ) (memory : ℕ → List ℕ) (c : Client) (fd : ℕ) (u : IsIdleUser c fd)
    (len : (i : ℕ) → length (memory i) ≡ max_message_size) where
  with_buffer_queues :
      (b : CircularBuff) (n : ℕ)
      → IsValid b
      → get_used_size b ≡ n
      → IsShort c n
      → b.head ≡ c.buffer.head
      → b.buffer_size ≡ c.buffer.buffer_size
      → Broadcasts fd
          (contents b)
          (execute_loop (suc (suc fuel)) memory (record c { buffer = b }) [])
  unfolding get_used_size get_total_size is_valid_packet
  with_buffer_queues b n v held short h s =
      loop_queues fuel memory (record c { buffer = b }) fd u.type (omega (arith, short.some_bytes))
        (execute_user_lem (record c { buffer = b }) (memory (suc fuel)) fd v
          (subst (ReadsRight b) (sym held)
            (ReadsRight-short b n v held (omega (arith, h, s, short.unbroken))))
          u.connected u.process (len (suc fuel)) (omega (arith, held, short.fits)))

  fill_queues :
      (cs : List Chunk) (result : Filled)
      → IsShort c (length (concat cs))
      → FillOutcome c.buffer cs result
      → Broadcasts fd (concat cs) (after_fill (execute_loop (suc (suc fuel)) memory) c result)
  unfolding after_fill get_used_size
  fill_queues cs result short (dropped over e) = absurd (omega (arith, short.free))
  fill_queues cs result short (filled b' _ e v held h s) = rw e (
      rw (is_positive_pos (length (concat cs)) short.some_bytes) (
        subst
          (λ l.
            Broadcasts fd l (execute_loop (suc (suc fuel)) memory (record c { buffer = b' }) []))
          whole (with_buffer_queues b' (length (concat cs)) v used short h s)))
    where
      whole : contents b' ≡ concat cs
      whole =
          held
          ∙ ap (λ l. l ++ concat cs)
              (length-zero (contents c.buffer) (length-contents c.buffer ∙ u.none_held))

      used : get_used_size b' ≡ length (concat cs)
      used = sym (length-contents b') ∙ ap length whole

-- A user's connection is idle, `Available()` answers a number from 1 up to the free space, and the reads
-- bring a short message before EAGAIN: then the round queues exactly one message, which carries exactly
-- the bytes read and excludes the sender's descriptor, leaves the buffer empty and valid, and registers
-- the client again; two turns of the loop are enough.
pub receive_round-Broadcasts :
    (fuel : ℕ) (memory : ℕ → List ℕ) (c : Client) (fd available : ℕ) (cs : List Chunk)
    (rs : List ReadResult)
    → IsIdleUser c fd
    → ((i : ℕ) → length (memory i) ≡ max_message_size)
    → IsShort c (length (concat cs))
    → 0 < available
    → available ≤ get_free_size c.buffer
    → Broadcasts fd
        (concat cs)
        (receive_round (suc (suc fuel)) memory c available (reads cs (read_failed eagain ∷ rs)))
unfolding receive_round
receive_round-Broadcasts fuel memory c fd available cs rs u len short some_there free =
    fill_queues fuel memory c fd u len cs _ short (
      fill_total c.buffer available cs rs u.valid some_there free short.some_bytes
        (omega (arith, short.fits)))
