-- ===== src/EventLoop/Handling.antt =====
-- What the handling of an event does to the holders of connections.
use thunder_chat.Prelude.{
  ◌⊎◌, ℕ, ◌+◌, ◌≤◌, ◌≡◌, ap, ◌∙◌, subst, List, [], ◌∷◌, ◌++◌, true, false, ◌==◌, if◌then◌else◌,
  arith, Bool-cases, Option-cases, inl, inr,
}
use thunder_chat.CircularQueue.{enqueue}
use thunder_chat.CircularQueue.Fifo.{IsValid, contents, enqueue_refines, Agrees, put}
use thunder_chat.CircularQueue.Threads.{produced}
use thunder_chat.EventLoop.{
  Connections, Event, EventLoop, Outcome, done, waiting, crashed, close_event, read_event,
  handle_event, dispatch,
}
use thunder_chat.EventLoop.Holders.{count, count_events, count-append, count-take_out}
use thunder_chat.EventLoop.Steps.{holders, IsOwned, AreLawful}

module _ {S : Type 0} (ops : Connections S) (laws : AreLawful ops) where
  pub loop_or : EventLoop S → Outcome S → EventLoop S
  loop_or l (done l') = l'
  loop_or l waiting = l
  loop_or l crashed = l

  pub done-inj : {l l' : EventLoop S} → done l ≡ done l' → l ≡ l'
  unfolding loop_or
  done-inj {l = l} e = ap (loop_or l) e

  pub close_event-IsOwned :
      (l : EventLoop S) (p : ℕ) (l' : EventLoop S)
      → IsValid l.receive_queue
      → ((q : ℕ) → holders ops q l ≡ (if ops.alive q l.server then 1 else 0))
      → ((q : ℕ) → (if p == q then 1 else 0) + count_events q l.pending ≤ count q l.interest)
      → close_event ops l p ≡ done l'
      → IsOwned ops l'
  unfolding close_event
  close_event-IsOwned l p l' v account reported e = elim (Option-cases (ops.close l.server p)) [
    | inl off ↦ absurd (ground (arith, rw (off, close_event) at e))
    | inr (s, there) ↦ subst (IsOwned ops) (done-inj (rw (there, close_event) at e)) (record {
      valid = v;
      account = λ q. ground (
        arith,
        account q,
        reported q,
        count-take_out q p l.interest,
        (laws.close_alive l.server p s there).1 q,
      );
      reported = λ q. ground (arith, reported q, count-take_out q p l.interest);
    })
  ]

  pub read_event-IsOwned :
      (l : EventLoop S) (p now : ℕ) (l' : EventLoop S)
      → IsValid l.receive_queue
      → ((q : ℕ) → holders ops q l ≡ (if ops.alive q l.server then 1 else 0))
      → ((q : ℕ) → (if p == q then 1 else 0) + count_events q l.pending ≤ count q l.interest)
      → read_event ops l p now ≡ done l'
      → IsOwned ops l'
  unfolding read_event
  read_event-IsOwned l p now l' v account reported e =
      elim (Option-cases (enqueue l.receive_queue p)) [
        | inl full ↦ absurd (ground (arith, rw (full, read_event) at e))
        | inr (queue, there) ↦
            let fact : (contents 0 queue ≡ contents 0 l.receive_queue ++ (p ∷ [])) × IsValid queue =
              produced 0 (contents 0 l.receive_queue) p queue (
                subst (λ r. Agrees 0 r (put (contents 0 l.receive_queue) p)) there
                  (enqueue_refines 0 l.receive_queue p v)) in
            subst (IsOwned ops) (done-inj (rw (there, read_event) at e)) (record {
              valid = fact.1;
              account = λ q.
                  let longer : count q (contents 0 queue)
                      ≡ count q (contents 0 l.receive_queue) + ((if p == q then 1 else 0) + 0) =
                    ap (count q) fact.0 ∙ count-append q (contents 0 l.receive_queue) (p ∷ []) in
                  ground (
                    arith,
                    account q,
                    reported q,
                    count-take_out q p l.interest,
                    longer,
                    laws.touch_alive q p now l.server,
                  );
              reported = λ q. ground (arith, reported q, count-take_out q p l.interest);
            })
      ]

  pub handle_event-IsOwned :
      (l : EventLoop S) (e : Event) (now : ℕ) (l' : EventLoop S)
      → IsValid l.receive_queue
      → ((q : ℕ) → holders ops q l ≡ (if ops.alive q l.server then 1 else 0))
      → ((q : ℕ) → (if e.client == q then 1 else 0) + count_events q l.pending ≤ count q l.interest)
      → handle_event ops l e now ≡ done l'
      → IsOwned ops l'
  unfolding handle_event
  handle_event-IsOwned l e now l' v account reported h =
      elim (Bool-cases (ops.alive e.client l.server)) [
        | inr gone ↦ absurd (ground (arith, rw gone at h))
        | inl there ↦ by_event there (Bool-cases e.failed) (Bool-cases e.readable)
      ]
    where
      by_event :
          ops.alive e.client l.server ≡ true
          → (e.failed ≡ true) ⊎ (e.failed ≡ false)
          → (e.readable ≡ true) ⊎ (e.readable ≡ false)
          → IsOwned ops l'
      by_event there (inl failed) readable =
          close_event-IsOwned l e.client l' v account reported (rw (there, failed) at h)
      by_event there (inr working) (inl readable) =
          read_event-IsOwned l e.client now l' v account reported
            (rw (there, working, readable) at h)
      by_event there (inr working) (inr quiet) =
          subst (IsOwned ops) (done-inj (rw (there, working, quiet) at h))
            (record { valid = v; account = account; reported = λ q. omega (arith, reported q) })

  pub dispatch-IsOwned :
      (now : ℕ) (l l' : EventLoop S) → IsOwned ops l → dispatch ops l now ≡ done l' → IsOwned ops l'
  unfolding dispatch
  dispatch-IsOwned now l l' o h = by_events l.pending o.reported h
    where
      by_events :
          (es : List Event)
          → ((q : ℕ) → count_events q es ≤ count q l.interest)
          → (elim es [
            | [] ↦ waiting
            | e ∷ rest ↦ handle_event ops (record l { pending = rest }) e now
          ])
            ≡ done l'
          → IsOwned ops l'
      by_events [] r d = absurd (ground (arith, d))
      by_events (e ∷ es) r d =
          handle_event-IsOwned (record l { pending = es }) e now l' o.valid o.account r d
