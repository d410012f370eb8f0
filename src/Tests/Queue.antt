-- ===== src/Tests/Queue.antt =====
-- The queue and its threads at concrete inputs.
use thunder_chat.Prelude.{
  ℕ, ◌≡◌, ◌≤◌, refl, List, [], ◌∷◌, ◌++◌, arith, length, replicate, length-replicate, set,
}
use thunder_chat.CircularQueue.{CircularQueue, qsize, create, enqueue, dequeue}
use thunder_chat.CircularQueue.Fifo.{
  IsValid, contents, put, take_oldest, Agrees, AgreesWith, queue_refines,
}
use thunder_chat.CircularQueue.Threads.{
  Traffic, quiet, Reach, here, next, produce, sent-eq-received,
}

abbrev array : List ℕ
array = replicate 1024 0

length-array : length array ≡ qsize
length-array = length-replicate {A = ℕ} 1024 0

-- One item, in the last place of the array.
abbrev one_held : CircularQueue ℕ
one_held = record { start_idx = 1023; num_full = 1; cells = array }

one_held-IsValid : IsValid one_held
one_held-IsValid = record { storage = length-array; start_in = omega arith; full_in = omega arith }

queue_refines_example :
    Agrees 0 (enqueue one_held 5) (put (contents 0 one_held) 5)
    × AgreesWith 0 (dequeue one_held) (take_oldest (contents 0 one_held))
queue_refines_example = queue_refines 0 one_held 5 one_held-IsValid

-- One thread has sent 5, and no other has received it.
abbrev sent_one : Traffic ℕ
sent_one = record {
  queue = record { start_idx = 0; num_full = 1; cells = set array 0 5 };
  sent = 5 ∷ [];
  received = [];
}

sent_one-Reach : Reach (quiet array) sent_one
unfolding create enqueue
sent_one-Reach = next here (produce 5 sent_one.queue refl refl)

sent-eq-received_example :
    (sent_one.sent ≡ sent_one.received ++ contents 0 sent_one.queue)
    × (length (contents 0 sent_one.queue) ≤ qsize)
sent-eq-received_example = sent-eq-received 0 array sent_one length-array sent_one-Reach
