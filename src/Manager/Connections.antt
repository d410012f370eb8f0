-- ===== src/Manager/Connections.antt =====
-- What `m_iConnCount` of src/ChatManager.cpp counts, however the threads of the manager run.
use thunder_chat.Prelude.{
  ℕ, suc, ◌+◌, ◌≤◌, ◌≡◌, refl, ap, ◌∙◌, some, arith, Bool-cases, if◌then◌else◌, inl, inr, true,
  false, length, subst, some-inj,
}
use thunder_chat.Prelude.Int.{pos, increment, decrement}
use thunder_chat.Listing.{remove, is_listed}
use thunder_chat.Listing.Counts.{
  raised, raised-increment, raised-decrement, raised-lost, raised_suc, raised_again, below_limit,
}
use thunder_chat.Listing.Members.{
  AreDistinct, no_member, length-push_back, AreDistinct-push_back, AreDistinct-Sublist,
  remove-Sublist, length-remove,
}
use thunder_chat.ChatServer.{Fresh}
use thunder_chat.Client.{create_client, set_state, set_main_process}
use thunder_chat.Manager.Accounts.{
  ChatManager, server_pointer, create_manager, new_server, is_manager_full, count_server,
  uncount_server, push_server, remove_server,
}
use thunder_chat.Manager.Threads.{
  Managing, Change, seat_found, seat_given_up, server_pushed, server_counted, server_removed,
  server_uncounted, increment_overwritten, decrement_overwritten, Comes, begins, changes,
}

-- What is not in the count: the lost increments, and a connection that is listed and not yet counted.
abbrev pub missing : Managing → ℕ
missing v = v.lost_increments + (if v.uncounted then 1 else 0)

missing_lem : (v : Managing) → v.uncounted ≡ false → missing v ≡ v.lost_increments
missing_lem v clean = ground (arith, clean)

-- What `m_iConnCount` has to account for.
abbrev pub connections : Managing → ℕ
connections v = length v.manager.servers + v.leaving + v.lost_decrements

pub record IsBounded (limit : ℕ) (v : Managing) : Type 0 where
  pub counted : raised (missing v) v.manager.conn_count ≡ pos (connections v)
  pub are_distinct : AreDistinct server_pointer v.manager.servers
  pub within :
      length v.manager.servers + v.leaving + (if v.found_seat then 1 else 0)
      ≤ limit + v.lost_increments
  pub max_eq : v.manager.max_user ≡ pos limit

counted_more :
    (limit : ℕ) (v : Managing)
    → IsBounded limit v
    → raised (missing v) (increment v.manager.conn_count) ≡ pos (connections v + 1)
counted_more limit v b =
    raised-increment (missing v) v.manager.conn_count
    ∙ ap increment b.counted
    ∙ ap pos (omega arith)

counted_less :
    (limit n : ℕ) (v : Managing)
    → IsBounded limit v
    → connections v ≡ suc n
    → raised (missing v) (decrement v.manager.conn_count) ≡ pos n
counted_less limit n v b e =
    raised-decrement (missing v) v.manager.conn_count ∙ ap decrement (b.counted ∙ ap pos e)

removed-IsBounded :
    (limit : ℕ) (v : Managing) (pointer : ℕ) (m : ChatManager)
    → IsBounded limit v
    → remove_server v.manager pointer ≡ some m
    → IsBounded limit (record v { manager = m; leaving = v.leaving + 1 })
unfolding remove_server
removed-IsBounded limit v pointer m b e =
    elim (Bool-cases (is_listed server_pointer pointer v.manager.servers)) [
      | inr gone ↦ absurd (ground (arith, e, gone))
      | inl there ↦
          let fewer = length-remove server_pointer pointer v.manager.servers b.are_distinct there in
          subst (λ t. IsBounded limit (record v { manager = t; leaving = v.leaving + 1 }))
            (some-inj (rw there at e))
            (record {
              counted = b.counted ∙ ap pos (omega (arith, fewer));
              are_distinct =
                  AreDistinct-Sublist server_pointer
                    (remove server_pointer pointer v.manager.servers) v.manager.servers
                    (remove-Sublist server_pointer pointer v.manager.servers) b.are_distinct;
              within = omega (arith, b.within, fewer);
              max_eq = b.max_eq;
            })
    ]

pushed-IsBounded :
    (limit : ℕ) (v : Managing) (fd memory : ℕ) (new : Fresh)
    → IsBounded limit v
    → v.found_seat ≡ true
    → is_listed server_pointer new.pointer v.manager.servers ≡ false
    → v.uncounted ≡ false
    → IsBounded limit (record v {
      manager = push_server v.manager (new_server fd memory new);
      found_seat = false;
      uncounted = true;
    })
unfolding push_server new_server create_client set_state set_main_process
pushed-IsBounded limit v fd memory new b found fresh clean = record {
  counted =
      raised_suc (missing v) (v.lost_increments + 1) v.manager.conn_count (ground (arith, clean))
      ∙ ap increment b.counted
      ∙ ap pos (omega (arith, length-push_back v.manager.servers (new_server fd memory new)));
  are_distinct =
      AreDistinct-push_back server_pointer v.manager.servers (new_server fd memory new)
        b.are_distinct fresh;
  within =
      omega (
        arith,
        rw found at b.within,
        length-push_back v.manager.servers (new_server fd memory new),
      );
  max_eq = b.max_eq;
}

Change-IsBounded :
    (limit : ℕ) (v v' : Managing) → IsBounded limit v → Change v v' → IsBounded limit v'
unfolding is_manager_full count_server uncount_server
Change-IsBounded limit v _ b (seat_found before clean room) = record {
  counted = b.counted;
  are_distinct = b.are_distinct;
  within = omega (
    arith,
    below_limit (missing v) limit (connections v) v.manager.conn_count b.counted
        (rw b.max_eq at room),
    missing_lem v clean,
  );
  max_eq = b.max_eq;
}
Change-IsBounded limit v _ b seat_given_up = record {
  counted = b.counted;
  are_distinct = b.are_distinct;
  within = omega (arith, b.within);
  max_eq = b.max_eq;
}
Change-IsBounded limit v _ b (server_pushed fd memory new found fresh clean) =
    pushed-IsBounded limit v fd memory new b found fresh clean
Change-IsBounded limit v _ b (server_counted listed) = record {
  counted =
      raised_again (v.lost_increments + 0) (missing v) v.manager.conn_count (ground (arith, listed))
      ∙ b.counted;
  are_distinct = b.are_distinct;
  within = b.within;
  max_eq = b.max_eq;
}
Change-IsBounded limit v _ b (server_removed pointer m e) = removed-IsBounded limit v pointer m b e
Change-IsBounded limit v _ b (server_uncounted some_there) = record {
  counted = counted_less limit _ v b (omega arith);
  are_distinct = b.are_distinct;
  within = omega (arith, b.within);
  max_eq = b.max_eq;
}
Change-IsBounded limit v _ b increment_overwritten = record {
  counted =
      raised-lost (missing v) (v.lost_increments + 1 + (if v.uncounted then 1 else 0))
        v.manager.conn_count (omega arith)
      ∙ b.counted;
  are_distinct = b.are_distinct;
  within = omega (arith, b.within);
  max_eq = b.max_eq;
}
Change-IsBounded limit v _ b decrement_overwritten = record {
  counted = counted_more limit v b ∙ ap pos (omega arith);
  are_distinct = b.are_distinct;
  within = b.within;
  max_eq = b.max_eq;
}

-- However the thread of `Run` and the workers of a manager accept and close connections, each between any
-- two statements of the others, also when they overwrite each other's updates of `m_iConnCount`: the
-- count, with the lost increments and a connection that is listed and not yet counted put back, is the
-- number of connections in the list, of those out of it and not yet uncounted, and of the lost decrements;
-- no connection is in the list twice; and there are at most as many as GetMaxUser says and one more for
-- each lost increment.
pub Comes-IsBounded : (limit : ℕ) (v : Managing) → Comes limit v → IsBounded limit v
unfolding create_manager
Comes-IsBounded limit v begins = record {
  counted = refl;
  are_distinct = no_member;
  within = omega arith;
  max_eq = refl;
}
Comes-IsBounded limit v (changes before _ c change) =
    Change-IsBounded limit before v (Comes-IsBounded limit before c) change
