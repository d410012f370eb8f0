-- ===== src/Manager/LoopSafety.antt =====
-- Each connection of a manager (src/ChatManager.cpp, src/ThreadWorker.cpp) is in one place: the events,
-- and what a worker does with the connection that it holds, do not go to a deleted one. The walk of
-- `MessageBroadcast` over the other connections, which no mutex guards, is not in this.
use thunder_chat.Prelude.{
  ℕ, ◌≡◌, ◌≢◌, refl, ap, sym, ◌∙◌, none, some, List, [], ◌∷◌, Bool, true, false, ◌==◌,
  if◌then◌else◌, arith, Bool-cases, inl, inr, some-inj, length,
}
use thunder_chat.Prelude.Int.{ℤ, at_least}
use thunder_chat.CircularQueue.{qsize}
use thunder_chat.Client.{create_client, set_state, set_main_process, set_access_time}
use thunder_chat.ChatServer.{Fresh}
use thunder_chat.Listing.{is_listed}
use thunder_chat.Manager.{ClientChatServer}
use thunder_chat.Manager.Accounts.{
  remove_server, uncount_server, push_server, count_server, ChatManager, server_pointer,
  create_manager, new_server, accept_server, close_server,
}
use thunder_chat.EventLoop.{EventLoop}
use thunder_chat.EventLoop.Holders.{count-add_client, is_listed-remove, is_listed-push_back}
use thunder_chat.EventLoop.Steps.{IsOwned, AreLawful}
use thunder_chat.EventLoop.Ownership.{reached-IsOwned, new_loop-IsOwned}
use thunder_chat.EventLoop.Safety.{NeverDangles, owned-NeverDangles}
use thunder_chat.Manager.Loop.{
  touch_server, served, server_connections, accept_in_loop, EntersManager, server_accepted, Serves,
}

close_server_cases :
    (m : ChatManager) (p : ℕ) (m' : ChatManager)
    → close_server m p ≡ some m'
    → (served p m ≡ true) × ((q : ℕ) → served q m' ≡ (if p == q then false else served q m))
unfolding close_server remove_server uncount_server
close_server_cases m p m' e = elim (Bool-cases (served p m)) [
  | inr gone ↦ absurd (ground (arith, e, gone))
  | inl there ↦ (
    there,
    λ q.
        ap (served q) (sym (some-inj (rw there at e)))
        ∙ is_listed-remove server_pointer q p m.servers,
  )
]

close_server_succeeds : (m : ChatManager) (p : ℕ) → served p m ≡ true → close_server m p ≢ none
unfolding close_server remove_server uncount_server
close_server_succeeds m p there e = cc (rw there at e)

is_listed-touch_server :
    (p q now : ℕ) (ss : List ClientChatServer)
    → is_listed server_pointer p (touch_server q now ss) ≡ is_listed server_pointer p ss
unfolding is_listed touch_server set_access_time
is_listed-touch_server p q now [] = refl
is_listed-touch_server p q now (s ∷ ss) = ground (arith, is_listed-touch_server p q now ss)

server_connections-AreLawful : AreLawful server_connections
server_connections-AreLawful = record {
  close_alive = close_server_cases;
  close_succeeds = close_server_succeeds;
  touch_alive = λ q p now m. is_listed-touch_server q p now m.servers;
}

-- An accepted connection that is registered with epoll is in the list, and no other one is.
accept_server-served :
    (m : ChatManager) (fd memory : ℕ) (for_servers : Bool) (new : Fresh) (q : ℕ)
    → served q (accept_server m fd memory for_servers new) ≡ (
        if at_least m.conn_count m.max_user
        then served q m
        else if for_servers
        then (if new.added then (if new.pointer == q then true else served q m) else served q m)
        else served q m)
unfolding accept_server new_server create_client set_state set_main_process push_server count_server
accept_server-served m fd memory for_servers new q =
    ground (arith, is_listed-push_back server_pointer q m.servers (new_server fd memory new))

EntersManager-IsOwned :
    (l l' : EventLoop ChatManager)
    → IsOwned server_connections l
    → EntersManager l l'
    → IsOwned server_connections l'
unfolding accept_in_loop
EntersManager-IsOwned l _ o (server_accepted fd memory for_servers new fresh) = record {
  valid = o.valid;
  account = λ p. ground (
    arith,
    o.account p,
    fresh,
    count-add_client new.added p new.pointer l.interest,
    accept_server-served l.server fd memory for_servers new p,
  );
  reported = λ p. ground (arith, o.reported p, count-add_client new.added p new.pointer l.interest);
}

-- However the event loop and the worker threads of a manager are scheduled, each connection of a chat
-- server is in exactly one place, once (registered with epoll, in the work queue, held by one worker, or
-- left by a worker that could not register it again), and a deleted one in none; so the loop never follows
-- a dangling pointer, what a worker holds is alive and held once, and closing it succeeds.
pub Serves-NeverDangles :
    (max_user : ℤ) (memory : List ℕ) (l : EventLoop ChatManager)
    → length memory ≡ qsize
    → Serves max_user memory l
    → IsOwned server_connections l × NeverDangles server_connections l
unfolding create_manager is_listed
Serves-NeverDangles max_user memory l size r =
    let o =
      reached-IsOwned server_connections server_connections-AreLawful EntersManager
        EntersManager-IsOwned _ l
        (new_loop-IsOwned server_connections server_connections-AreLawful (create_manager max_user)
          memory size (λ p. refl))
        r in
    (o, owned-NeverDangles server_connections server_connections-AreLawful l o)
