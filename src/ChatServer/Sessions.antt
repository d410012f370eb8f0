-- ===== src/ChatServer/Sessions.antt =====
-- What `m_iConnCount` of src/ChatServer.cpp counts, however the threads of the server run.
use thunder_chat.Prelude.{
  ℕ, suc, ◌+◌, ◌≤◌, ◌≡◌, refl, ap, ◌∙◌, some, arith, Bool-cases, if◌then◌else◌, inl, inr, length,
  subst, some-inj,
}
use thunder_chat.Prelude.Int.{pos, increment, decrement}
use thunder_chat.Client.{
  client_user, client_chat_manager, create_client, set_type, set_main_process,
}
use thunder_chat.Listing.{remove, is_listed}
use thunder_chat.Listing.Counts.{
  raised, raised-increment, raised-decrement, raised-lost, below_limit,
}
use thunder_chat.Listing.Members.{
  AreDistinct, no_member, length-push_back, AreDistinct-push_back, AreDistinct-Sublist,
  remove-Sublist, length-remove,
}
use thunder_chat.ChatServer.{
  ChatServer, create, set_max_user, is_user, is_full, new_client, count_client, uncount_client,
  push_client, remove_client, client_pointer,
}
use thunder_chat.ChatServer.Accounts.{users, users-push_back, users-Sublist, users_up_to_all}
use thunder_chat.ChatServer.Threads.{
  Serving, Step, room_found, user_counted, user_pushed, manager_counted, manager_pushed,
  client_removed, client_uncounted, increment_overwritten, decrement_overwritten, Reach, started,
  stepped,
}

-- What `m_iConnCount` has to account for.
abbrev pub connections : Serving → ℕ
connections v =
    length v.server.clients + v.users_entering + v.managers_entering + v.leaving + v.lost_decrements

-- Users that are in the list, on their way into it, or about to be counted.
abbrev pub admitted : Serving → ℕ
admitted v = users v.server.clients + v.users_entering + (if v.found_room then 1 else 0)

pub record IsCounted (limit : ℕ) (v : Serving) : Type 0 where
  pub counted : raised v.lost_increments v.server.conn_count ≡ pos (connections v)
  pub are_distinct : AreDistinct client_pointer v.server.clients
  pub few_users : admitted v ≤ limit + v.lost_increments
  pub max_eq : v.server.max_user ≡ pos limit

counted_more :
    (limit : ℕ) (v : Serving)
    → IsCounted limit v
    → raised v.lost_increments (increment v.server.conn_count) ≡ pos (connections v + 1)
counted_more limit v c =
    raised-increment v.lost_increments v.server.conn_count
    ∙ ap increment c.counted
    ∙ ap pos (omega arith)

counted_less :
    (limit n : ℕ) (v : Serving)
    → IsCounted limit v
    → connections v ≡ suc n
    → raised v.lost_increments (decrement v.server.conn_count) ≡ pos n
counted_less limit n v c e =
    raised-decrement v.lost_increments v.server.conn_count ∙ ap decrement (c.counted ∙ ap pos e)

removed-IsCounted :
    (limit : ℕ) (v : Serving) (pointer : ℕ) (s : ChatServer)
    → IsCounted limit v
    → remove_client v.server pointer ≡ some s
    → IsCounted limit (record v { server = s; leaving = v.leaving + 1 })
unfolding remove_client
removed-IsCounted limit v pointer s c e =
    elim (Bool-cases (is_listed client_pointer pointer v.server.clients)) [
      | inr gone ↦ absurd (ground (arith, e, gone))
      | inl there ↦
          let sub = remove-Sublist client_pointer pointer v.server.clients in
          subst (λ t. IsCounted limit (record v { server = t; leaving = v.leaving + 1 }))
            (some-inj (rw there at e))
            (record {
              counted =
                  c.counted
                  ∙ ap pos (
                      omega (
                        arith,
                        length-remove client_pointer pointer v.server.clients c.are_distinct there,
                      ));
              are_distinct =
                  AreDistinct-Sublist client_pointer
                    (remove client_pointer pointer v.server.clients) v.server.clients sub
                    c.are_distinct;
              few_users = omega (
                arith,
                c.few_users,
                users-Sublist (remove client_pointer pointer v.server.clients) v.server.clients sub,
              );
              max_eq = c.max_eq;
            })
    ]

Step-IsCounted : (limit : ℕ) (v v' : Serving) → IsCounted limit v → Step v v' → IsCounted limit v'
unfolding is_full count_client uncount_client push_client new_client is_user set_main_process
    set_type create_client
Step-IsCounted limit v _ c (room_found before room) = record {
  counted = c.counted;
  are_distinct = c.are_distinct;
  few_users = omega (
    arith,
    users_up_to_all v.server.clients,
    below_limit v.lost_increments limit (connections v) v.server.conn_count c.counted
        (rw c.max_eq at room),
  );
  max_eq = c.max_eq;
}
Step-IsCounted limit v _ c (user_counted found) = record {
  counted = counted_more limit v c ∙ ap pos (omega arith);
  are_distinct = c.are_distinct;
  few_users = omega (arith, rw found at c.few_users);
  max_eq = c.max_eq;
}
Step-IsCounted limit v _ c (user_pushed fd new some_there fresh) = record {
  counted =
      c.counted
      ∙ ap pos (omega (arith, length-push_back v.server.clients (new_client fd client_user new)));
  are_distinct =
      AreDistinct-push_back client_pointer v.server.clients (new_client fd client_user new)
        c.are_distinct fresh;
  few_users =
      omega (arith, c.few_users, users-push_back v.server.clients (new_client fd client_user new));
  max_eq = c.max_eq;
}
Step-IsCounted limit v _ c manager_counted = record {
  counted = counted_more limit v c ∙ ap pos (omega arith);
  are_distinct = c.are_distinct;
  few_users = c.few_users;
  max_eq = c.max_eq;
}
Step-IsCounted limit v _ c (manager_pushed fd new some_there fresh) = record {
  counted =
      c.counted
      ∙ ap pos (
          omega (arith, length-push_back v.server.clients (new_client fd client_chat_manager new)));
  are_distinct =
      AreDistinct-push_back client_pointer v.server.clients (new_client fd client_chat_manager new)
        c.are_distinct fresh;
  few_users = omega (
    arith,
    c.few_users,
    users-push_back v.server.clients (new_client fd client_chat_manager new),
  );
  max_eq = c.max_eq;
}
Step-IsCounted limit v _ c (client_removed pointer s e) = removed-IsCounted limit v pointer s c e
Step-IsCounted limit v _ c (client_uncounted some_there) = record {
  counted = counted_less limit _ v c (omega arith);
  are_distinct = c.are_distinct;
  few_users = c.few_users;
  max_eq = c.max_eq;
}
Step-IsCounted limit v _ c increment_overwritten = record {
  counted =
      raised-lost v.lost_increments (v.lost_increments + 1) v.server.conn_count refl ∙ c.counted;
  are_distinct = c.are_distinct;
  few_users = omega (arith, c.few_users);
  max_eq = c.max_eq;
}
Step-IsCounted limit v _ c decrement_overwritten = record {
  counted = counted_more limit v c ∙ ap pos (omega arith);
  are_distinct = c.are_distinct;
  few_users = c.few_users;
  max_eq = c.max_eq;
}

-- However the threads of a chat server accept, register and close connections, each between any two
-- statements of the others, also when they overwrite each other's updates of `m_iConnCount`: the count,
-- with the lost increments put back, is the number of clients in the list, on their way into it, and out of
-- it but not yet uncounted, and of the lost decrements; no client is in the list twice; and the clients of
-- type CLIENT_USER, those on their way included, are at most as many as the managers allow and one more
-- for each lost increment. So without lost updates the limit holds, at any time.
pub Reach-IsCounted : (limit : ℕ) (v : Serving) → Reach limit v → IsCounted limit v
unfolding create set_max_user
Reach-IsCounted limit v started = record {
  counted = refl;
  are_distinct = no_member;
  few_users = omega arith;
  max_eq = refl;
}
Reach-IsCounted limit v (stepped before _ r step) =
    Step-IsCounted limit before v (Reach-IsCounted limit before r) step
