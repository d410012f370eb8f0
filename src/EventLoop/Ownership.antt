-- ===== src/EventLoop/Ownership.antt =====
-- Each connection of a server is in one place, whatever its threads do.
use thunder_chat.Prelude.{
  ℕ, ◌+◌, ◌<◌, ◌≡◌, ap, sym, ◌∙◌, subst, some, List, ◌∷◌, Bool, true, false, if◌then◌else◌, arith,
  Option-cases, inl, inr, some-inj, length,
}
use thunder_chat.CircularQueue.{qsize, dequeue, create}
use thunder_chat.CircularQueue.Fifo.{
  IsValid, contents, create-IsValid, dequeue_refines, AgreesWith, take_oldest,
}
use thunder_chat.CircularQueue.Threads.{consumed}
use thunder_chat.EventLoop.{
  Connections, EventLoop, add_client, take_client, finish_closed, finish_rearmed, new_loop,
}
use thunder_chat.EventLoop.Holders.{count, count-take_out}
use thunder_chat.EventLoop.Steps.{
  Step, Reach, IsOwned, AreLawful, entered, polled, dispatched, taken, round_closed, round_rearmed,
  objects_changed, started, stepped,
}
use thunder_chat.EventLoop.Handling.{dispatch-IsOwned}

module _ {S : Type 0} (ops : Connections S) (laws : AreLawful ops) where
  take_client-IsOwned :
      (l l' : EventLoop S) → IsOwned ops l → take_client ops l ≡ some l' → IsOwned ops l'
  unfolding take_client
  take_client-IsOwned l l' o e = elim (Option-cases (dequeue l.receive_queue)) [
    | inl empty ↦ absurd (ground (arith, rw empty at e))
    | inr ((p, queue), there) ↦
        let fact : (contents 0 l.receive_queue ≡ p ∷ contents 0 queue) × IsValid queue =
          consumed 0 (contents 0 l.receive_queue) p queue (
            subst (λ r. AgreesWith 0 r (take_oldest (contents 0 l.receive_queue))) there
              (dequeue_refines 0 l.receive_queue o.valid)) in
        subst (IsOwned ops) (some-inj (rw there at e)) (record {
          valid = fact.1;
          account = λ q. ground (arith, o.account q, ap (count q) fact.0);
          reported = o.reported;
        })
  ]

  finish_closed-IsOwned :
      (l : EventLoop S) (p : ℕ) (l' : EventLoop S)
      → IsOwned ops l
      → 0 < count p l.working
      → finish_closed ops l p ≡ some l'
      → IsOwned ops l'
  unfolding finish_closed
  finish_closed-IsOwned l p l' o held e = elim (Option-cases (ops.close l.server p)) [
    | inl off ↦ absurd (ground (arith, rw off at e))
    | inr (s, there) ↦ subst (IsOwned ops) (some-inj (rw there at e)) (record {
      valid = o.valid;
      account = λ q. ground (
        arith,
        o.account q,
        held,
        count-take_out q p l.working,
        (laws.close_alive l.server p s there).1 q,
      );
      reported = o.reported;
    })
  ]

  finish_rearmed-IsOwned :
      (l : EventLoop S) (p : ℕ) (added : Bool)
      → IsOwned ops l
      → 0 < count p l.working
      → IsOwned ops (finish_rearmed ops l p added)
  unfolding finish_rearmed add_client
  finish_rearmed-IsOwned l p true o held = record {
    valid = o.valid;
    account = λ q. ground (arith, o.account q, held, count-take_out q p l.working);
    reported = λ q. ground (arith, o.reported q);
  }
  finish_rearmed-IsOwned l p false o held = record {
    valid = o.valid;
    account = λ q. ground (arith, o.account q, held, count-take_out q p l.working);
    reported = o.reported;
  }

  Step-IsOwned :
      (Enters : EventLoop S → EventLoop S → Type 0)
      → ((l l' : EventLoop S) → IsOwned ops l → Enters l l' → IsOwned ops l')
      → (l l' : EventLoop S) → IsOwned ops l
      → Step ops Enters l l'
      → IsOwned ops l'
  Step-IsOwned Enters kept l l' o (entered _ e) = kept l l' o e
  Step-IsOwned Enters kept l _ o (polled events none_left within) = record {
    valid = o.valid;
    account = o.account;
    reported = within;
  }
  Step-IsOwned Enters kept l l' o (dispatched now _ e) = dispatch-IsOwned ops laws now l l' o e
  Step-IsOwned Enters kept l l' o (taken _ e) = take_client-IsOwned l l' o e
  Step-IsOwned Enters kept l l' o (round_closed p _ held e) = finish_closed-IsOwned l p l' o held e
  Step-IsOwned Enters kept l _ o (round_rearmed p added held) =
      finish_rearmed-IsOwned l p added o held
  Step-IsOwned Enters kept l _ o (objects_changed s same) = record {
    valid = o.valid;
    account = λ p. o.account p ∙ ap (λ b. if b then 1 else 0) (sym (same p));
    reported = o.reported;
  }

  pub reached-IsOwned :
      (Enters : EventLoop S → EventLoop S → Type 0)
      → ((l l' : EventLoop S) → IsOwned ops l → Enters l l' → IsOwned ops l')
      → (start l : EventLoop S) → IsOwned ops start
      → Reach ops Enters start l
      → IsOwned ops l
  reached-IsOwned Enters kept start _ o started = o
  reached-IsOwned Enters kept start l o (stepped before _ r step) =
      Step-IsOwned Enters kept before l (reached-IsOwned Enters kept start before o r) step

  pub new_loop-IsOwned :
      (s : S) (memory : List ℕ)
      → length memory ≡ qsize
      → ((p : ℕ) → ops.alive p s ≡ false)
      → IsOwned ops (new_loop s memory)
  unfolding create
  new_loop-IsOwned s memory size no_client =
      let (v, e) = create-IsValid 0 memory size in
      record {
        valid = v;
        account = λ p.
            ap (λ xs. 0 + count p xs + 0 + 0) e ∙ ap (λ b. if b then 1 else 0) (sym (no_client p));
        reported = λ p. omega arith;
      }
