-- ===== src/Receiver/Overflow.antt =====
-- A user who sends too much at once: a round of src/ThreadReceiver.cpp that goes outside a block.
use thunder_chat.Prelude.{
  ℕ, suc, ◌+◌, ◌≤◌, ◌<◌, ◌≡◌, ap, sym, ◌∙◌, none, List, [], ◌∷◌, arith, length, length-append,
}
use thunder_chat.Prelude.Int.{is_positive_pos}
use thunder_chat.Kernel.{ReadResult, read_failed, eagain, Chunk, concat, reads}
use thunder_chat.CircularBuff.{get_used_size, get_free_size}
use thunder_chat.CircularBuff.Bounds.{IsValid, contents, length-contents}
use thunder_chat.CircularBuff.Fill.{Filled, FillOutcome, dropped, filled, fill_total, buf_in_size}
use thunder_chat.Message.{BroadcastMessage, max_message_size}
use thunder_chat.Client.{Client, client_user, execute_command, is_valid_packet}
use thunder_chat.Client.Commands.{execute_user_overflow, execute_command_user}
use thunder_chat.Receiver.{crashed, execute_loop, after_command, after_fill, receive_round}

turn_crashes :
    (fuel : ℕ) (memory : ℕ → List ℕ) (c : Client) (ms : List BroadcastMessage)
    → 0 < is_valid_packet c
    → execute_command c (memory fuel) ≡ none
    → execute_loop (suc fuel) memory c ms ≡ crashed
unfolding execute_loop after_command
turn_crashes fuel memory c ms held e = rw e (ground arith)

module _ (fuel : ℕ) (memory : ℕ → List ℕ) (c : Client) (user : c.client_type ≡ client_user)
    (len : (i : ℕ) → length (memory i) ≡ max_message_size) where
  fill_crashes :
      (cs : List Chunk) (result : Filled)
      → length (concat cs) ≤ get_free_size c.buffer
      → max_message_size < get_used_size c.buffer + length (concat cs)
      → 0 < length (concat cs)
      → FillOutcome c.buffer cs result
      → after_fill (execute_loop (suc fuel) memory) c result ≡ crashed
  unfolding after_fill get_used_size is_valid_packet
  fill_crashes cs result free over some_read (dropped big e) = absurd (omega (arith, free, big))
  fill_crashes cs result free over some_read (filled b _ e v held _ _) =
      let used : b.use_size ≡ c.buffer.use_size + length (concat cs) = omega (
        arith,
        sym (length-contents b) ∙ ap length held ∙ length-append (contents c.buffer) (concat cs),
        length-contents c.buffer,
      ) in
      rw e (
        rw (is_positive_pos (length (concat cs)) some_read) (
          turn_crashes fuel memory (record c { buffer = b }) [] (omega (arith, used, over))
            (execute_command_user (record c { buffer = b }) (memory fuel) user
              ∙ execute_user_overflow (record c { buffer = b }) (memory fuel) v (len fuel)
                  (omega (arith, used, over)))))

-- The fault: a user's connection has a valid buffer, `Available()` answers a number from 1 up to its free
-- space, and the reads bring some bytes before EAGAIN, no more than `buf_in` and the free space hold. If
-- with them more than `MAX_MESSAGE_SIZE` bytes are in the buffer, the round copies outside a block of
-- memory, wherever in the buffer the bytes lie; one turn of the loop is enough.
pub receive_round_overflow :
    (fuel : ℕ) (memory : ℕ → List ℕ) (c : Client) (available : ℕ) (cs : List Chunk)
    (rs : List ReadResult)
    → IsValid c.buffer
    → c.client_type ≡ client_user
    → ((i : ℕ) → length (memory i) ≡ max_message_size)
    → 0 < available
    → available ≤ get_free_size c.buffer
    → 0 < length (concat cs)
    → length (concat cs) ≤ buf_in_size
    → length (concat cs) ≤ get_free_size c.buffer
    → max_message_size < get_used_size c.buffer + length (concat cs)
    → receive_round (suc fuel) memory c available (reads cs (read_failed eagain ∷ rs)) ≡ crashed
unfolding receive_round
receive_round_overflow fuel memory c available cs rs v user len some_there room some_read fits free
      over =
    fill_crashes fuel memory c user len cs _ free over some_read
      (fill_total c.buffer available cs rs v some_there room some_read fits)
