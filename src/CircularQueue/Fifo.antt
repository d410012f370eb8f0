-- ===== src/CircularQueue/Fifo.antt =====
-- The circular array of src/CircularQueue.cpp against a bounded first-in first-out list.
use thunder_chat.Prelude.{
  ℕ, zero, suc, ◌+◌, ◌-◌, ◌%◌, ◌≤◌, ◌<◌, ◌≡◌, refl, ap, ◌∙◌, Option, none, some, List, [], ◌∷◌,
  ◌++◌, ◌==◌, if◌then◌else◌, Bool-cases, inl, inr, true, false, length, length-set, get_or, set,
  arith,
}
use thunder_chat.Ring.{window, length-window, window_first, window-write_block}
use thunder_chat.CircularQueue.{CircularQueue, qsize, get_elem?, create, enqueue, dequeue}

pub record IsValid {A : Type 0} (q : CircularQueue A) : Type 0 where
  pub storage : length q.cells ≡ qsize
  pub start_in : q.start_idx < qsize
  pub full_in : q.num_full ≤ qsize

-- The specification: a list of at most `qsize` items, oldest first.
module _ {A : Type 0} where
  unfoldable pub put : List A → A → Option (List A)
  put xs x = if length xs == qsize then none else some (xs ++ (x ∷ []))

  unfoldable pub take_oldest : List A → Option (A × List A)
  take_oldest [] = none
  take_oldest (x ∷ xs) = some (x, xs)

  get_elem?-get_or :
      (xs : List A) (i : ℕ) (d : A) → i < length xs → get_elem? xs i ≡ some (get_or xs i d)
  get_elem?-get_or [] i d h = absurd (omega arith)
  get_elem?-get_or (x ∷ xs) zero d h = refl
  get_elem?-get_or (x ∷ xs) (suc i) d h = get_elem?-get_or xs i d (omega arith)

-- `d` only fills the places outside the array, which a valid queue does not read.
module _ {A : Type 0} (d : A) where
  abbrev pub contents : CircularQueue A → List A
  contents q = window d q.cells qsize q.start_idx q.num_full

  pub length-contents : (q : CircularQueue A) → length (contents q) ≡ q.num_full
  length-contents q = length-window d q.cells qsize q.start_idx q.num_full

  window-set :
      (cells : List A) (n h : ℕ) (x : A)
      → length cells ≡ qsize
      → h < qsize
      → n < qsize
      → window d (set cells ((h + n) % qsize) x) qsize h (n + 1)
        ≡ window d cells qsize h n ++ (x ∷ [])
  window-set cells n h x len hh room =
      window-write_block d cells qsize n h ((h + n) % qsize) (x ∷ []) (omega arith) hh (omega arith)
        refl (omega arith)

  -- What a step leaves: the list that the specification leaves, in a valid queue; it waits where the
  -- specification does.
  abbrev pub Agrees : Option (CircularQueue A) → Option (List A) → Type 0
  Agrees none none = Unit
  Agrees (some q) (some xs) = (contents q ≡ xs) × IsValid q
  Agrees _ _ = ⊥

  abbrev pub AgreesWith : Option (A × CircularQueue A) → Option (A × List A) → Type 0
  AgreesWith none none = Unit
  AgreesWith (some (x, q)) (some (y, xs)) = (x ≡ y) × (contents q ≡ xs) × IsValid q
  AgreesWith _ _ = ⊥

  pub create-IsValid :
      (memory : List A)
      → length memory ≡ qsize
      → IsValid (create memory) × (contents (create memory) ≡ [])
  unfolding create
  create-IsValid memory h =
      (record { storage = h; start_in = omega arith; full_in = omega arith }, refl)

  -- In a valid queue `EnQueue` waits exactly when the specification does, that is when `qsize` items
  -- are held; otherwise it leaves a valid queue that holds the old items and then the new one.
  pub enqueue_refines :
      (q : CircularQueue A) (x : A) → IsValid q → Agrees (enqueue q x) (put (contents q) x)
  unfolding enqueue put
  enqueue_refines q x v = elim (Bool-cases (q.num_full == qsize)) [
    | inl full ↦ rw (length-contents q, full) tt
    | inr room ↦
        rw (length-contents q, room)
          (
            window-set q.cells q.num_full q.start_idx x v.storage v.start_in (ground arith),
            record {
              storage = length-set q.cells _ x ∙ v.storage;
              start_in = v.start_in;
              full_in = ground arith;
            },
          )
  ]

  -- In a valid queue `DeQueue` waits exactly when no item is held; otherwise it returns the oldest item
  -- and leaves a valid queue that holds the others in order.
  pub dequeue_refines :
      (q : CircularQueue A) → IsValid q → AgreesWith (dequeue q) (take_oldest (contents q))
  unfolding dequeue take_oldest
  dequeue_refines q v = elim (Bool-cases (q.num_full == 0)) [
    | inl empty ↦ rw (nothing empty, empty) tt
    | inr more ↦
        rw (oldest more, more, get_elem?-get_or q.cells q.start_idx d (omega (arith, v.storage)))
          (
            refl,
            refl,
            record { storage = v.storage; start_in = omega arith; full_in = omega arith },
          )
  ]
    where
      nothing : (q.num_full == 0) ≡ true → contents q ≡ []
      nothing empty =
          let e : q.num_full ≡ 0 = ground arith in ap (window d q.cells qsize q.start_idx) e

      oldest :
          (q.num_full == 0) ≡ false
          → contents q
            ≡ get_or q.cells q.start_idx d
              ∷ window d q.cells qsize ((q.start_idx + 1) % qsize) (q.num_full - 1)
      oldest more = window_first d q.cells qsize q.num_full q.start_idx (ground arith) v.start_in

  -- A valid queue refines a list of at most `qsize` items: `EnQueue` waits exactly when the list is full, and
  -- otherwise puts its item behind the others; `DeQueue` waits exactly when the list is empty, and otherwise
  -- takes the oldest item; and both leave a valid queue.
  pub queue_refines :
      (q : CircularQueue A) (x : A)
      → IsValid q
      → Agrees (enqueue q x) (put (contents q) x)
        × AgreesWith (dequeue q) (take_oldest (contents q))
  queue_refines q x v = (enqueue_refines q x v, dequeue_refines q v)
