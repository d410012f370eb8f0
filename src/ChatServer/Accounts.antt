-- ===== src/ChatServer/Accounts.antt =====
-- The count of the connections that src/ChatServer.cpp keeps beside its list of clients.
use thunder_chat.Prelude.{ℕ, ◌+◌, ◌≤◌, ◌≡◌, refl, List, [], ◌∷◌, arith, if◌then◌else◌, length}
use thunder_chat.Client.{Client}
use thunder_chat.Listing.{push_back}
use thunder_chat.Listing.Members.{Sublist, none_there, kept, dropped}
use thunder_chat.ChatServer.{is_user}

-- How many clients of type CLIENT_USER there are.
abbrev pub users : List Client → ℕ
users [] = 0
users (c ∷ cs) = (if is_user c then 1 else 0) + users cs

pub users-push_back : (cs : List Client) (c : Client) → users (push_back cs c) ≡ users (c ∷ cs)
unfolding push_back
users-push_back [] c = refl
users-push_back (d ∷ ds) c = omega (arith, users-push_back ds c)

pub users-Sublist : (ds cs : List Client) → Sublist ds cs → users ds ≤ users cs
users-Sublist ds cs none_there = omega arith
users-Sublist ds cs (kept c es fs s) = omega (arith, users-Sublist es fs s)
users-Sublist ds cs (dropped c _ fs s) = omega (arith, users-Sublist ds fs s)

pub users_up_to_all : (cs : List Client) → users cs ≤ length cs
users_up_to_all [] = omega arith
users_up_to_all (c ∷ cs) = ground (arith, users_up_to_all cs)
