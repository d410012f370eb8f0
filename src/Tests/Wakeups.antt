-- ===== src/Tests/Wakeups.antt =====
-- A thread that sleeps in `DeQueue` of src/CircularQueue.cpp and is woken.
use thunder_chat.Prelude.{ℕ, ◌≡◌, ◌<◌, refl, List, ◌∷◌, replicate, length, length-replicate, arith}
use thunder_chat.CircularQueue.{qsize, create, enqueue, dequeue}
use thunder_chat.CircularQueue.Waiting.{
  Monitor, run_enqueue, run_dequeue, signal_not_empty, idle, Reach, started, stepped,
  enqueue_called, dequeue_called, dequeue_resumed, IsAwake, Reach-IsAwake,
}

abbrev memory : List ℕ
memory = replicate qsize 0

abbrev asleep : Monitor
asleep = run_dequeue (idle memory)

-- The item 5 comes, and the thread is on its way to it.
abbrev woken : Monitor
woken = run_enqueue asleep 5

woken_state : woken ≡ record {
  queue = record { start_idx = 0; num_full = 1; cells = 5 ∷ replicate 1023 0 };
  waiting_in = 0;
  woken_in = 0;
  waiting_out = 0;
  woken_out = 1;
}
unfolding run_enqueue run_dequeue signal_not_empty enqueue dequeue create
woken_state = refl

abbrev served : Monitor
served = run_dequeue (record woken { woken_out = 0 })

one_woken : 0 < woken.woken_out
unfolding run_enqueue run_dequeue signal_not_empty enqueue dequeue create
one_woken = omega arith

served-Reach : Reach memory served
unfolding run_enqueue run_dequeue signal_not_empty enqueue dequeue create
served-Reach =
    stepped woken served
      (stepped asleep woken (stepped (idle memory) asleep started dequeue_called)
        (enqueue_called 5))
      (dequeue_resumed one_woken)

memory_full : length memory ≡ qsize
memory_full = length-replicate {A = ℕ} qsize 0

Reach-IsAwake_example : IsAwake served
Reach-IsAwake_example = Reach-IsAwake memory served memory_full served-Reach
