-- ===== src/CircularQueue/Waiting.antt =====
-- The condition variables of src/CircularQueue.cpp: who waits in `EnQueue` and `DeQueue`, and who is woken.
use thunder_chat.Prelude.{
  ℕ, ◌+◌, ◌-◌, ◌≤◌, ◌<◌, ◌≡◌, refl, ap, subst, Option, none, some, List, [], ◌∷◌, ◌++◌, ◌==◌,
  if◌then◌else◌, arith, Bool-cases, inl, inr, length, length-append,
}
use thunder_chat.CircularQueue.{CircularQueue, qsize, enqueue, dequeue, create}
use thunder_chat.CircularQueue.Fifo.{
  IsValid, contents, create-IsValid, length-contents, enqueue_refines, dequeue_refines, Agrees,
  AgreesWith, put, take_oldest,
}
use thunder_chat.CircularQueue.Threads.{produced, consumed, emptied}

-- A queue with the threads that sleep in `pthread_cond_wait` on `notfull` and on `notempty`, and those
-- that have been woken there and do not have the mutex yet.
pub record Monitor : Type 0 where
  pub queue : CircularQueue ℕ
  pub waiting_in : ℕ
  pub woken_in : ℕ
  pub waiting_out : ℕ
  pub woken_out : ℕ

-- `pthread_cond_signal(&notempty)` and `pthread_cond_signal(&notfull)`
unfoldable pub signal_not_empty : Monitor → Monitor
signal_not_empty m =
    if m.waiting_out == 0
    then m
    else record m { waiting_out = m.waiting_out - 1; woken_out = m.woken_out + 1 }

unfoldable pub signal_not_full : Monitor → Monitor
signal_not_full m =
    if m.waiting_in == 0
    then m
    else record m { waiting_in = m.waiting_in - 1; woken_in = m.woken_in + 1 }

-- `EnQueue` from where it gets the mutex to where it gives it up, in the wait or at the end.
unfoldable pub run_enqueue : Monitor → ℕ → Monitor
run_enqueue m x = elim (enqueue m.queue x) [
  | none ↦ record m { waiting_in = m.waiting_in + 1 }
  | some queue ↦ signal_not_empty (record m { queue = queue })
]

-- The same of `DeQueue`.
unfoldable pub run_dequeue : Monitor → Monitor
run_dequeue m = elim (dequeue m.queue) [
  | none ↦ record m { waiting_out = m.waiting_out + 1 }
  | some (x, queue) ↦ signal_not_full (record m { queue = queue })
]

-- A thread calls, or one that has been woken gets the mutex; and a wait may end without a signal.
pub data Step (m : Monitor) : Monitor → Type 0 where
  enqueue_called : (x : ℕ) → Step m (run_enqueue m x)
  enqueue_resumed :
      (x : ℕ) → 0 < m.woken_in → Step m (run_enqueue (record m { woken_in = m.woken_in - 1 }) x)
  dequeue_called : Step m (run_dequeue m)
  dequeue_resumed :
      0 < m.woken_out → Step m (run_dequeue (record m { woken_out = m.woken_out - 1 }))
  enqueue_woken :
      0 < m.waiting_in
      → Step m (record m { waiting_in = m.waiting_in - 1; woken_in = m.woken_in + 1 })
  dequeue_woken :
      0 < m.waiting_out
      → Step m (record m { waiting_out = m.waiting_out - 1; woken_out = m.woken_out + 1 })

abbrev pub idle : List ℕ → Monitor
idle memory = record {
  queue = create memory;
  waiting_in = 0;
  woken_in = 0;
  waiting_out = 0;
  woken_out = 0;
}

pub data Reach (memory : List ℕ) : Monitor → Type 0 where
  started : Reach memory (idle memory)
  stepped : (m m' : Monitor) → Reach memory m → Step m m' → Reach memory m'

-- What a call of `EnQueue` or `DeQueue` does to the number of items.
data Enqueued (q : CircularQueue ℕ) : Option (CircularQueue ℕ) → Type 0 where
  was_full : q.num_full ≡ qsize → Enqueued q none
  put_in : (q' : CircularQueue ℕ) → IsValid q' → q'.num_full ≡ q.num_full + 1 → Enqueued q (some q')

data Dequeued (q : CircularQueue ℕ) : Option (ℕ × CircularQueue ℕ) → Type 0 where
  was_empty : q.num_full ≡ 0 → Dequeued q none
  took_out :
      (x : ℕ) (q' : CircularQueue ℕ)
      → IsValid q'
      → q.num_full ≡ q'.num_full + 1
      → Dequeued q (some (x, q'))

enqueue-Enqueued : (q : CircularQueue ℕ) (x : ℕ) → IsValid q → Enqueued q (enqueue q x)
unfolding enqueue
enqueue-Enqueued q x v = by_result (enqueue q x) refl
  where
    by_result : (r : Option (CircularQueue ℕ)) → enqueue q x ≡ r → Enqueued q r
    by_result none e = was_full (elim (Bool-cases (q.num_full == qsize)) [
      | inl full ↦ ground (arith, full)
      | inr room ↦ absurd (ground (arith, rw room at e))
    ])
    by_result (some q') e =
        let fact : (contents 0 q' ≡ contents 0 q ++ (x ∷ [])) × IsValid q' =
          produced 0 (contents 0 q) x q'
            (subst (λ r. Agrees 0 r (put (contents 0 q) x)) e (enqueue_refines 0 q x v)) in
        put_in q' fact.1 (
          omega (
            arith,
            ap length fact.0,
            length-append (contents 0 q) (x ∷ []),
            length-contents 0 q,
            length-contents 0 q',
          ))

dequeue-Dequeued : (q : CircularQueue ℕ) → IsValid q → Dequeued q (dequeue q)
dequeue-Dequeued q v = by_result (dequeue q) refl
  where
    by_result : (r : Option (ℕ × CircularQueue ℕ)) → dequeue q ≡ r → Dequeued q r
    by_result none e = was_empty (
        omega (
          arith,
          length-contents 0 q,
          ap length (
              emptied 0 (contents 0 q) (
                subst (λ r. AgreesWith 0 r (take_oldest (contents 0 q))) e
                  (dequeue_refines 0 q v))),
        ))
    by_result (some (x, q')) e =
        let fact : (contents 0 q ≡ x ∷ contents 0 q') × IsValid q' =
          consumed 0 (contents 0 q) x q'
            (subst (λ r. AgreesWith 0 r (take_oldest (contents 0 q))) e (dequeue_refines 0 q v)) in
        took_out x q' fact.1
          (omega (arith, ap length fact.0, length-contents 0 q, length-contents 0 q'))

-- No wakeup is lost: for each item there is a woken thread on its way while others sleep in `DeQueue`, and
-- for each free place while others sleep in `EnQueue`.
pub record IsAwake (m : Monitor) : Type 0 where
  pub valid : IsValid m.queue
  pub items_seen : 0 < m.waiting_out → m.queue.num_full ≤ m.woken_out
  pub room_seen : 0 < m.waiting_in → qsize ≤ m.queue.num_full + m.woken_in

-- In both calls, `m` may lack a woken thread, namely the one that has resumed.
run_enqueue-IsAwake :
    (m : Monitor) (x : ℕ)
    → IsValid m.queue
    → (0 < m.waiting_out → m.queue.num_full ≤ m.woken_out)
    → (0 < m.waiting_in → qsize ≤ m.queue.num_full + (m.woken_in + 1))
    → IsAwake (run_enqueue m x)
unfolding run_enqueue signal_not_empty
run_enqueue-IsAwake m x v items room = by_result (enqueue m.queue x) (enqueue-Enqueued m.queue x v)
  where
    by_result :
        (r : Option (CircularQueue ℕ))
        → Enqueued m.queue r
        → IsAwake (elim r as (λ _. Monitor) [
          | none ↦ record m { waiting_in = m.waiting_in + 1 }
          | some queue ↦ signal_not_empty (record m { queue = queue })
        ])
    by_result _ (was_full full) = record {
      valid = v;
      items_seen = items;
      room_seen = λ _. omega (arith, full);
    }
    by_result _ (put_in q' v' one_more) = elim (Bool-cases (m.waiting_out == 0)) [
      | inl nobody ↦ rw nobody (record {
        valid = v';
        items_seen = λ sleeps. absurd (ground (arith, nobody, sleeps));
        room_seen = λ sleeps. omega (arith, room sleeps, one_more);
      })
      | inr somebody ↦ rw somebody (record {
        valid = v';
        items_seen = λ sleeps. omega (arith, items (ground (arith, somebody)), one_more);
        room_seen = λ sleeps. omega (arith, room sleeps, one_more);
      })
    ]

run_dequeue-IsAwake :
    (m : Monitor)
    → IsValid m.queue
    → (0 < m.waiting_out → m.queue.num_full ≤ m.woken_out + 1)
    → (0 < m.waiting_in → qsize ≤ m.queue.num_full + m.woken_in)
    → IsAwake (run_dequeue m)
unfolding run_dequeue signal_not_full
run_dequeue-IsAwake m v items room = by_result (dequeue m.queue) (dequeue-Dequeued m.queue v)
  where
    by_result :
        (r : Option (ℕ × CircularQueue ℕ))
        → Dequeued m.queue r
        → IsAwake (elim r as (λ _. Monitor) [
          | none ↦ record m { waiting_out = m.waiting_out + 1 }
          | some (x, queue) ↦ signal_not_full (record m { queue = queue })
        ])
    by_result _ (was_empty empty) = record {
      valid = v;
      items_seen = λ _. omega (arith, empty);
      room_seen = room;
    }
    by_result _ (took_out x q' v' one_less) = elim (Bool-cases (m.waiting_in == 0)) [
      | inl nobody ↦ rw nobody (record {
        valid = v';
        items_seen = λ sleeps. omega (arith, items sleeps, one_less);
        room_seen = λ sleeps. absurd (ground (arith, nobody, sleeps));
      })
      | inr somebody ↦ rw somebody (record {
        valid = v';
        items_seen = λ sleeps. omega (arith, items sleeps, one_less);
        room_seen = λ sleeps. omega (arith, room (ground (arith, somebody)), one_less);
      })
    ]

Step-IsAwake : (m m' : Monitor) → IsAwake m → Step m m' → IsAwake m'
Step-IsAwake m _ a (enqueue_called x) =
    run_enqueue-IsAwake m x a.valid a.items_seen (λ sleeps. omega (arith, a.room_seen sleeps))
Step-IsAwake m _ a (enqueue_resumed x woken) =
    run_enqueue-IsAwake (record m { woken_in = m.woken_in - 1 }) x a.valid a.items_seen
      (λ sleeps. omega (arith, a.room_seen sleeps, woken))
Step-IsAwake m _ a dequeue_called =
    run_dequeue-IsAwake m a.valid (λ sleeps. omega (arith, a.items_seen sleeps)) a.room_seen
Step-IsAwake m _ a (dequeue_resumed woken) =
    run_dequeue-IsAwake (record m { woken_out = m.woken_out - 1 }) a.valid
      (λ sleeps. omega (arith, a.items_seen sleeps, woken)) a.room_seen
Step-IsAwake m _ a (enqueue_woken some_there) = record {
  valid = a.valid;
  items_seen = a.items_seen;
  room_seen = λ sleeps. omega (arith, a.room_seen some_there);
}
Step-IsAwake m _ a (dequeue_woken some_there) = record {
  valid = a.valid;
  items_seen = λ sleeps. omega (arith, a.items_seen some_there);
  room_seen = a.room_seen;
}

-- However many threads call `EnQueue` and `DeQueue`, and in whatever order they get the mutex, overtake
-- each other or wake without a signal: while a thread sleeps in `DeQueue`, there are no more items than
-- woken threads on their way to them, and while one sleeps in `EnQueue`, no more free places. So when no
-- woken thread is left, threads sleep in `DeQueue` only before an empty queue, and in `EnQueue` only before a
-- full one.
pub Reach-IsAwake :
    (memory : List ℕ) (m : Monitor) → length memory ≡ qsize → Reach memory m → IsAwake m
Reach-IsAwake memory m size started = record {
  valid = (create-IsValid 0 memory size).0;
  items_seen = λ sleeps. absurd (omega (arith, sleeps));
  room_seen = λ sleeps. absurd (omega (arith, sleeps));
}
Reach-IsAwake memory m size (stepped before _ r step) =
    Step-IsAwake before m (Reach-IsAwake memory before size r) step
