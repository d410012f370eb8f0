-- ===== src/CircularQueue/Threads.antt =====
-- Any number of threads that call `EnQueue` and `DeQueue` of one queue (src/CircularQueue.cpp): the
-- mutex makes each call that does not wait one step, and the scheduler chooses the order.
use thunder_chat.Prelude.{
  ◌≤◌, ◌≡◌, refl, sym, ap, ap₂, ◌∙◌, ◌≢◌, ◌⊎◌, none, some, List, [], ◌∷◌, ◌++◌, length,
  append_assoc, inl, inr, arith, ◌==◌, subst, subst₂, Option-cases, Bool-cases,
}
use thunder_chat.CircularQueue.{CircularQueue, qsize, create, enqueue, dequeue}
use thunder_chat.CircularQueue.Fifo.{
  IsValid, contents, length-contents, put, take_oldest, Agrees, AgreesWith, create-IsValid,
  enqueue_refines, dequeue_refines,
}

-- The queue, with what all threads together have put in and taken out, oldest first.
pub record Traffic (A : Type 0) : Type 0 where
  pub queue : CircularQueue A
  pub sent : List A
  pub received : List A

module _ {A : Type 0} where
  abbrev pub quiet : List A → Traffic A
  quiet memory = record { queue = create memory; sent = []; received = [] }

  pub data Step (s t : Traffic A) : Type 0 where
    produce :
        (x : A) (q : CircularQueue A)
        → enqueue s.queue x ≡ some q
        → t ≡ record s { queue = q; sent = s.sent ++ (x ∷ []) }
        → Step s t
    consume :
        (x : A) (q : CircularQueue A)
        → dequeue s.queue ≡ some (x, q)
        → t ≡ record s { queue = q; received = s.received ++ (x ∷ []) }
        → Step s t

  pub data Reach (s : Traffic A) : Traffic A → Type 0 where
    here : Reach s s
    next : {t u : Traffic A} → Reach s t → Step t u → Reach s u

module _ {A : Type 0} (d : A) where
  pub record InOrder (s : Traffic A) : Type 0 where
    pub valid : IsValid s.queue
    pub account : s.sent ≡ s.received ++ contents d s.queue

  pub produced :
      (xs : List A) (x : A) (q : CircularQueue A)
      → Agrees d (some q) (put xs x)
      → (contents d q ≡ xs ++ (x ∷ [])) × IsValid q
  unfolding put
  produced xs x q h = elim (Bool-cases (length xs == qsize)) [
    | inl full ↦ absurd (rw (full, put) at h)
    | inr room ↦ rw (room, put) at h
  ]

  pub consumed :
      (xs : List A) (x : A) (q : CircularQueue A)
      → AgreesWith d (some (x, q)) (take_oldest xs)
      → (xs ≡ x ∷ contents d q) × IsValid q
  unfolding take_oldest
  consumed [] x q h = absurd h
  consumed (y ∷ xs) x q h = (ap₂ ◌∷◌ (sym h.0) (sym h.1), h.2)

  pub emptied : (xs : List A) → AgreesWith d none (take_oldest xs) → xs ≡ []
  unfolding take_oldest
  emptied [] h = refl
  emptied (y ∷ xs) h = absurd h

  empty_has_room : (x : A) → ¬ Agrees d none (put [] x)
  unfolding put
  empty_has_room x h = h

  Step-InOrder : {s t : Traffic A} → Step s t → InOrder s → InOrder t
  Step-InOrder {s} {t} (produce x q e f) v =
      let fact : (contents d q ≡ contents d s.queue ++ (x ∷ [])) × IsValid q =
        produced (contents d s.queue) x q (
          subst (λ r. Agrees d r (put (contents d s.queue) x)) e
            (enqueue_refines d s.queue x v.valid)) in
      subst InOrder (sym f) (record {
        valid = fact.1;
        account =
            ap (λ l. l ++ (x ∷ [])) v.account
            ∙ append_assoc s.received _ _
            ∙ ap (◌++◌ s.received) (sym fact.0);
      })
  Step-InOrder {s} {t} (consume x q e f) v =
      let fact : (contents d s.queue ≡ x ∷ contents d q) × IsValid q =
        consumed (contents d s.queue) x q (
          subst (λ r. AgreesWith d r (take_oldest (contents d s.queue))) e
            (dequeue_refines d s.queue v.valid)) in
      subst InOrder (sym f) (record {
        valid = fact.1;
        account = v.account ∙ ap (◌++◌ s.received) fact.0 ∙ sym (append_assoc s.received _ _);
      })

  Reach-InOrder : {s t : Traffic A} → InOrder s → Reach s t → InOrder t
  Reach-InOrder h here = h
  Reach-InOrder h (next r st) = Step-InOrder st (Reach-InOrder h r)

  start-InOrder : (memory : List A) → length memory ≡ qsize → InOrder (quiet memory)
  start-InOrder memory h =
      let (v, e) = create-IsValid d memory h in record { valid = v; account = sym e }

  -- In whatever order the threads' calls are scheduled, what has been sent is what has been received,
  -- in the order of sending, followed by what the queue holds: no item is lost, repeated or overtaken.
  -- At most `qsize` items are on the way.
  pub sent-eq-received :
      (memory : List A) (t : Traffic A)
      → length memory ≡ qsize
      → Reach (quiet memory) t
      → (t.sent ≡ t.received ++ contents d t.queue) × (length (contents d t.queue) ≤ qsize)
  sent-eq-received memory t h r =
      let done = Reach-InOrder (start-InOrder memory h) r in
      (done.account, omega (arith, length-contents d t.queue, done.valid.full_in))

  -- In every state that the threads can reach, a call of `EnQueue` and a call of `DeQueue` do not both
  -- wait: some thread can always move.
  pub no_deadlock :
      (memory : List A) (t : Traffic A) (x : A)
      → length memory ≡ qsize
      → Reach (quiet memory) t
      → (enqueue t.queue x ≢ none) ⊎ (dequeue t.queue ≢ none)
  no_deadlock memory t x h r = elim (Option-cases (dequeue t.queue)) [
    | inl empty ↦ inl (λ full. empty_has_room x (
        subst₂ (λ r xs. Agrees d r (put xs x)) full (nothing empty)
          (enqueue_refines d t.queue x v)))
    | inr (p, e) ↦ inr (λ n. cc)
  ]
    where
      v : IsValid t.queue
      v = (Reach-InOrder (start-InOrder memory h) r).valid

      nothing : dequeue t.queue ≡ none → contents d t.queue ≡ []
      nothing e = emptied (contents d t.queue) (
          subst (λ o. AgreesWith d o (take_oldest (contents d t.queue))) e
            (dequeue_refines d t.queue v))
