-- ===== src/EventLoop/Safety.antt =====
-- What the event loop and the thread that holds a connection do with it never goes to a deleted one. What
-- a thread does with the other connections (a broadcast) is not in this.
use thunder_chat.Prelude.{
  ℕ, ◌≤◌, ◌<◌, ◌≡◌, ◌≢◌, none, List, [], ◌∷◌, true, arith, Option-cases, inl, inr,
}
use thunder_chat.CircularQueue.{enqueue}
use thunder_chat.EventLoop.{
  Connections, Event, EventLoop, waiting, crashed, close_event, read_event, handle_event, dispatch,
  finish_closed,
}
use thunder_chat.EventLoop.Holders.{count, count_events}
use thunder_chat.EventLoop.Steps.{holders, IsOwned, AreLawful}

module _ {S : Type 0} (ops : Connections S) where
  -- What a state of the event loop promises to its next step.
  pub record NeverDangles (l : EventLoop S) : Type 0 where
    pub event_handled : (now : ℕ) → dispatch ops l now ≢ crashed
    pub held_alive : (p : ℕ) → 0 < count p l.working → ops.alive p l.server ≡ true
    pub held_once : (p : ℕ) → count p l.working ≤ 1
    pub round_closes : (p : ℕ) → 0 < count p l.working → finish_closed ops l p ≢ none

module _ {S : Type 0} (ops : Connections S) (laws : AreLawful ops) where
  alive_of_count :
      (l : EventLoop S) (p : ℕ) → IsOwned ops l → 0 < holders ops p l → ops.alive p l.server ≡ true
  alive_of_count l p o some_there = ground (arith, o.account p)

  close_event-ne-crashed :
      (l : EventLoop S) (p : ℕ) → ops.alive p l.server ≡ true → close_event ops l p ≢ crashed
  unfolding close_event
  close_event-ne-crashed l p there h = elim (Option-cases (ops.close l.server p)) [
    | inl off ↦ laws.close_succeeds l.server p there off
    | inr (s, ok) ↦ ground (arith, rw (ok, close_event) at h)
  ]

  read_event-ne-crashed : (l : EventLoop S) (p now : ℕ) → read_event ops l p now ≢ crashed
  unfolding read_event
  read_event-ne-crashed l p now h = elim (Option-cases (enqueue l.receive_queue p)) [
    | inl full ↦ ground (arith, rw (full, read_event) at h)
    | inr (queue, ok) ↦ ground (arith, rw (ok, read_event) at h)
  ]

  handle_event-ne-crashed :
      (l : EventLoop S) (e : Event) (now : ℕ)
      → ops.alive e.client l.server ≡ true
      → handle_event ops l e now ≢ crashed
  unfolding handle_event
  handle_event-ne-crashed l e now there h =
      ground (
        arith,
        there,
        close_event-ne-crashed l e.client there,
        read_event-ne-crashed l e.client now,
      )

  dispatch-ne-crashed : (l : EventLoop S) (now : ℕ) → IsOwned ops l → dispatch ops l now ≢ crashed
  unfolding dispatch
  dispatch-ne-crashed l now o h = by_events l.pending o.reported h
    where
      by_events :
          (es : List Event)
          → ((q : ℕ) → count_events q es ≤ count q l.interest)
          → (elim es [
            | [] ↦ waiting
            | e ∷ rest ↦ handle_event ops (record l { pending = rest }) e now
          ])
            ≡ crashed
          → ⊥
      by_events [] r d = ground (arith, d)
      by_events (e ∷ es) r d =
          handle_event-ne-crashed (record l { pending = es }) e now
            (alive_of_count l e.client o (ground (arith, r e.client))) d

  finish_closed-ne-none :
      (l : EventLoop S) (p : ℕ) → ops.alive p l.server ≡ true → finish_closed ops l p ≢ none
  unfolding finish_closed
  finish_closed-ne-none l p there h = elim (Option-cases (ops.close l.server p)) [
    | inl off ↦ laws.close_succeeds l.server p there off
    | inr (s, ok) ↦ ground (arith, rw ok at h)
  ]

  pub owned-NeverDangles : (l : EventLoop S) → IsOwned ops l → NeverDangles ops l
  owned-NeverDangles l o = record {
    event_handled = λ now. dispatch-ne-crashed l now o;
    held_alive = λ p held. alive_of_count l p o (omega arith);
    held_once = λ p. ground (arith, o.account p);
    round_closes = λ p held. finish_closed-ne-none l p (alive_of_count l p o (omega arith));
  }
