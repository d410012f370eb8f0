-- ===== src/EventLoop/Steps.antt =====
-- The event loop and the threads of a server (src/ChatServer.cpp or src/ChatManager.cpp) as steps, in any
-- order, and who holds a connection.
use thunder_chat.Prelude.{
  ℕ, ◌+◌, ◌≤◌, ◌<◌, ◌≡◌, ◌≢◌, some, none, List, [], Bool, true, false, ◌==◌, if◌then◌else◌,
}
use thunder_chat.CircularQueue.Fifo.{IsValid, contents}
use thunder_chat.EventLoop.{
  Connections, Event, EventLoop, done, dispatch, take_client, finish_closed, finish_rearmed,
}
use thunder_chat.EventLoop.Holders.{count, count_events}

module _ {S : Type 0} (ops : Connections S) where
  -- How often a connection is registered with epoll, queued, or held by a thread.
  abbrev pub holders : ℕ → EventLoop S → ℕ
  holders p l =
      count p l.interest + count p (contents 0 l.receive_queue) + count p l.working + count p l.lost

  pub record IsOwned (l : EventLoop S) : Type 0 where
    pub valid : IsValid l.receive_queue
    pub account : (p : ℕ) → holders p l ≡ (if ops.alive p l.server then 1 else 0)
    pub reported : (p : ℕ) → count_events p l.pending ≤ count p l.interest

  -- What a server promises: `CloseClient` works on a living object and deletes it alone, and
  -- `SetAccessTime` deletes none.
  pub record AreLawful : Type 0 where
    pub close_alive :
        (s : S) (p : ℕ) (s' : S)
        → ops.close s p ≡ some s'
        → (ops.alive p s ≡ true)
          × ((q : ℕ) → ops.alive q s' ≡ (if p == q then false else ops.alive q s))
    pub close_succeeds : (s : S) (p : ℕ) → ops.alive p s ≡ true → ops.close s p ≢ none
    pub touch_alive : (q p now : ℕ) (s : S) → ops.alive q (ops.touch p now s) ≡ ops.alive q s

  -- What the threads do, one step each. `Enters` are the ways in which the server makes connections.
  -- `epoll_wait` reports only registered connections, each at most once; and whatever a round or a
  -- broadcast does to the objects, they stay where they are.
  pub data Step (Enters : EventLoop S → EventLoop S → Type 0) (l : EventLoop S)
      : EventLoop S → Type 0 where
    entered : (l' : EventLoop S) → Enters l l' → Step Enters l l'
    polled :
        (events : List Event)
        → l.pending ≡ []
        → ((p : ℕ) → count_events p events ≤ count p l.interest)
        → Step Enters l (record l { pending = events })
    dispatched : (now : ℕ) (l' : EventLoop S) → dispatch ops l now ≡ done l' → Step Enters l l'
    taken : (l' : EventLoop S) → take_client ops l ≡ some l' → Step Enters l l'
    round_closed :
        (p : ℕ) (l' : EventLoop S)
        → 0 < count p l.working
        → finish_closed ops l p ≡ some l'
        → Step Enters l l'
    round_rearmed :
        (p : ℕ) (added : Bool)
        → 0 < count p l.working
        → Step Enters l (finish_rearmed ops l p added)
    objects_changed :
        (s : S)
        → ((p : ℕ) → ops.alive p s ≡ ops.alive p l.server)
        → Step Enters l (record l { server = s })

  pub data Reach (Enters : EventLoop S → EventLoop S → Type 0) (start : EventLoop S)
      : EventLoop S → Type 0 where
    started : Reach Enters start start
    stepped : (l l' : EventLoop S) → Reach Enters start l → Step Enters l l' → Reach Enters start l'
