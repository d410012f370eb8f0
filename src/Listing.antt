-- ===== src/Listing.antt =====
-- The lists of connections that src/ChatServer.cpp and src/ChatManager.cpp keep: std::list of pointers, and
-- the loop in which both delete the connections that are dead.
pub mod Members
pub mod Erasing
pub mod Counts
use thunder_chat.Prelude.{
  ℕ, Option, none, some, List, [], ◌∷◌, Bool, true, false, ◌==◌, if◌then◌else◌, ◌>>=◌,
}
use thunder_chat.Prelude.Int.{ℤ, decrement}

module _ {A : Type 0} where
  -- `push_back`
  unfoldable pub push_back : List A → A → List A
  push_back [] c = c ∷ []
  push_back (d ∷ ds) c = d ∷ push_back ds c

  abbrev pub with_head : A → ℤ × List A → Option (ℤ × List A)
  with_head c (count, rest) = some (count, c ∷ rest)

  -- The loop of `HealthCheckUsers` from an iterator at the given place in the list, where `dead` is its
  -- test: the count, and what stays. After `iter = erase(iter)` the loop still does `iter++`, which
  -- passes over the next element, and is undefined at the end of the list.
  unfoldable pub erase_loop : (A → Bool) → ℤ → List A → Option (ℤ × List A)
  erase_loop dead count [] = some (count, [])
  erase_loop dead count (c ∷ []) = if dead c then none else some (count, c ∷ [])
  erase_loop dead count (c ∷ d ∷ cs) =
      let after_next = erase_loop dead (decrement count) cs in
      let after_this = erase_loop dead count (d ∷ cs) in
      if dead c then (after_next >>= with_head d) else (after_this >>= with_head c)

-- `pointer` is the address of an object.
module _ {A : Type 0} (pointer : A → ℕ) where
  -- `std::list::remove`
  unfoldable pub remove : ℕ → List A → List A
  remove p [] = []
  remove p (c ∷ cs) = let rest = remove p cs in if pointer c == p then rest else c ∷ rest

  -- Whether the pointer names an object that has not been deleted.
  unfoldable pub is_listed : ℕ → List A → Bool
  is_listed p [] = false
  is_listed p (c ∷ cs) = let rest = is_listed p cs in if pointer c == p then true else rest
