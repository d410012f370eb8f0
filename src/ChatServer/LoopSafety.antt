-- ===== src/ChatServer/LoopSafety.antt =====
-- Each connection of a chat server (src/ChatServer.cpp, src/ThreadReceiver.cpp, src/ThreadAcceptor.cpp) is in
-- one place: the events and the rounds of the receiver threads do not go to a deleted one. What a message's
-- broadcast calls is not in this (Dangling.antt).
use thunder_chat.Prelude.{
  ℕ, ◌≡◌, ◌≢◌, refl, ap, sym, ◌∙◌, subst, none, some, List, [], ◌∷◌, true, false, ◌==◌,
  if◌then◌else◌, arith, Bool-cases, Option-cases, inl, inr, some-inj, length,
}
use thunder_chat.Prelude.Int.{at_least, pos}
use thunder_chat.CircularQueue.{qsize}
use thunder_chat.Client.{
  Client, ClientType, client_user, client_chat_manager, create_client, set_type, set_main_process,
  set_access_time, chat_server,
}
use thunder_chat.ChatServer.{
  remove_client, uncount_client, push_client, count_client, new_client, ChatServer, Fresh,
  client_pointer, accept_client, close_client, set_max_user, create,
}
use thunder_chat.Listing.{is_listed}
use thunder_chat.EventLoop.{EventLoop}
use thunder_chat.EventLoop.Holders.{count-add_client, is_listed-remove, is_listed-push_back}
use thunder_chat.EventLoop.Steps.{IsOwned, AreLawful}
use thunder_chat.EventLoop.Ownership.{reached-IsOwned, new_loop-IsOwned}
use thunder_chat.EventLoop.Safety.{NeverDangles, owned-NeverDangles}
use thunder_chat.ChatServer.Loop.{
  touch, alive, chat_connections, register, accept, Enters, accepted, manager_registered, starting,
  Runs,
}

-- `CloseClient` succeeds just for a living object, and deletes it.
close_client_cases :
    (s : ChatServer) (p : ℕ) (s' : ChatServer)
    → close_client s p ≡ some s'
    → (alive p s ≡ true) × ((q : ℕ) → alive q s' ≡ (if p == q then false else alive q s))
unfolding close_client remove_client uncount_client
close_client_cases s p s' e = elim (Bool-cases (alive p s)) [
  | inr gone ↦ absurd (ground (arith, e, gone))
  | inl there ↦ (
    there,
    λ q.
        ap (λ t. alive q t) (sym (some-inj (rw there at e)))
        ∙ is_listed-remove client_pointer q p s.clients,
  )
]

close_client_succeeds : (s : ChatServer) (p : ℕ) → alive p s ≡ true → close_client s p ≢ none
unfolding close_client remove_client uncount_client
close_client_succeeds s p there e = cc (rw there at e)

-- `AcceptClient` makes one living object, unless it cannot register it.
accept_client-alive :
    (s : ChatServer) (fd : ℕ) (type : ClientType) (new : Fresh) (s' : ChatServer)
    → alive new.pointer s ≡ false
    → accept_client s fd type new ≡ some s'
    → (q : ℕ)
    → alive q s' ≡ (if new.added then (if new.pointer == q then true else alive q s) else alive q s)
unfolding accept_client set_main_process set_type create_client push_client count_client new_client
    close_client remove_client uncount_client
accept_client-alive s fd type new s' fresh e q = elim (Bool-cases new.added) [
  | inl added ↦ rw added (
      ap (alive q) (sym (some-inj (rw added at e)))
      ∙ is_listed-push_back client_pointer q s.clients c)
  | inr failed ↦ ground (
    arith,
    fresh,
    failed,
    is_listed-push_back client_pointer q s.clients c,
    (close_client_cases _ new.pointer s' (rw failed at e)).1 q,
  )
]
  where
    c : Client
    c =
        set_main_process
          (set_type (create_client new.pointer (some fd) client_user new.now new.buffer) type)
          chat_server

is_listed-touch :
    (p q now : ℕ) (cs : List Client)
    → is_listed client_pointer p (touch q now cs) ≡ is_listed client_pointer p cs
unfolding is_listed touch set_access_time
is_listed-touch p q now [] = refl
is_listed-touch p q now (c ∷ cs) = ground (arith, is_listed-touch p q now cs)

chat_connections-AreLawful : AreLawful chat_connections
chat_connections-AreLawful = record {
  close_alive = close_client_cases;
  close_succeeds = close_client_succeeds;
  touch_alive = λ q p now s. is_listed-touch q p now s.clients;
}

register-IsOwned :
    (l : EventLoop ChatServer) (fd : ℕ) (type : ClientType) (new : Fresh)
    (l' : EventLoop ChatServer)
    → IsOwned chat_connections l
    → alive new.pointer l.server ≡ false
    → register l fd type new ≡ some l'
    → IsOwned chat_connections l'
unfolding register
register-IsOwned l fd type new l' o fresh e =
    elim (Option-cases (accept_client l.server fd type new)) [
      | inl off ↦ absurd (ground (arith, rw off at e))
      | inr (s, there) ↦ subst (IsOwned chat_connections) (some-inj (rw there at e)) (record {
        valid = o.valid;
        account = λ p. ground (
          arith,
          o.account p,
          fresh,
          count-add_client new.added p new.pointer l.interest,
          accept_client-alive l.server fd type new s fresh there p,
        );
        reported =
            λ p. ground (arith, o.reported p, count-add_client new.added p new.pointer l.interest);
      })
    ]

accept-IsOwned :
    (l : EventLoop ChatServer) (fd : ℕ) (new : Fresh) (l' : EventLoop ChatServer)
    → IsOwned chat_connections l
    → alive new.pointer l.server ≡ false
    → accept l fd new ≡ some l'
    → IsOwned chat_connections l'
unfolding accept
accept-IsOwned l fd new l' o fresh e =
    elim (Bool-cases (at_least l.server.conn_count l.server.max_user)) [
      | inl full ↦ subst (IsOwned chat_connections) (some-inj (rw (full, accept) at e)) o
      | inr room ↦ register-IsOwned l fd client_user new l' o fresh (rw (room, accept) at e)
    ]

Enters-IsOwned :
    (l l' : EventLoop ChatServer)
    → IsOwned chat_connections l
    → Enters l l'
    → IsOwned chat_connections l'
Enters-IsOwned l l' o (accepted fd new _ fresh e) = accept-IsOwned l fd new l' o fresh e
Enters-IsOwned l l' o (manager_registered fd new _ fresh e) =
    register-IsOwned l fd client_chat_manager new l' o fresh e

-- However the event loop, the acceptor and the receiver threads of a chat server are scheduled, each
-- living connection is in exactly one place, once: registered with epoll, in the receive queue, held by one
-- receiver thread, or left by a thread that could not register it again; and no deleted connection is in
-- any of them. No event is pending for a connection that is not registered.
pub Runs-IsOwned :
    (limit : ℕ) (memory : List ℕ) (l : EventLoop ChatServer)
    → length memory ≡ qsize
    → Runs limit memory l
    → IsOwned chat_connections l
unfolding set_max_user create is_listed
Runs-IsOwned limit memory l size r =
    reached-IsOwned chat_connections chat_connections-AreLawful Enters Enters-IsOwned
      (starting limit memory) l
      (new_loop-IsOwned chat_connections chat_connections-AreLawful
        (set_max_user create (pos limit)) memory size (λ p. refl))
      r

-- However the threads of a chat server are scheduled, no event and no round of a receiver thread touches
-- a deleted connection: the event loop never follows a dangling pointer, a connection that a thread holds is
-- alive and held once, by that thread alone, and closing it succeeds.
pub Runs-NeverDangles :
    (limit : ℕ) (memory : List ℕ) (l : EventLoop ChatServer)
    → length memory ≡ qsize
    → Runs limit memory l
    → NeverDangles chat_connections l
Runs-NeverDangles limit memory l size r =
    owned-NeverDangles chat_connections chat_connections-AreLawful l
      (Runs-IsOwned limit memory l size r)
