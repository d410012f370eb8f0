-- ===== src/CircularQueue.antt =====
-- src/CircularQueue.cpp and include/CircularQueue.h: the bounded queue of pointers between threads.
-- A call runs under `buf_lock`, so it is one step; `none` is a call that waits on its condition
-- variable (`notfull`, `notempty`) and has changed nothing.
pub mod Fifo
pub mod Threads
pub mod Waiting
use thunder_chat.Prelude.{
  ℕ, suc, zero, ◌+◌, ◌-◌, ◌%◌, Option, none, some, List, ◌==◌, if◌then◌else◌, set, ◌>>=◌, [], ◌∷◌,
}

abbrev pub qsize : ℕ
qsize = 1024

pub record CircularQueue {ℓ} (A : Type ℓ) : Type ℓ where
  pub start_idx : ℕ
  pub num_full : ℕ
  pub cells : List A

module _ {ℓ} {A : Type ℓ} where
  -- `this->data[i]`; `none` is an index outside the array.
  abbrev pub get_elem? : List A → ℕ → Option A
  get_elem? [] i = none
  get_elem? (x ∷ xs) zero = some x
  get_elem? (x ∷ xs) (suc i) = get_elem? xs i

  -- The constructor: the array `data` holds what its memory held.
  unfoldable pub create : List A → CircularQueue A
  create memory = record { start_idx = 0; num_full = 0; cells = memory }

  unfoldable pub enqueue : CircularQueue A → A → Option (CircularQueue A)
  enqueue q x =
      if q.num_full == qsize
      then none
      else some (record q {
        cells = set q.cells ((q.start_idx + q.num_full) % qsize) x;
        num_full = q.num_full + 1;
      })

  unfoldable pub dequeue : CircularQueue A → Option (A × CircularQueue A)
  dequeue q =
      if q.num_full == 0
      then none
      else (get_elem? q.cells q.start_idx >>= λ x.
          some (x, record q { start_idx = (q.start_idx + 1) % qsize; num_full = q.num_full - 1 }))
