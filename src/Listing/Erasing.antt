-- ===== src/Listing/Erasing.antt =====
-- What the loop of `HealthCheckUsers` (src/ChatServer.cpp, src/ChatManager.cpp) leaves of a list.
use thunder_chat.Prelude.{
  ℕ, zero, suc, ◌+◌, ◌-◌, ◌*◌, ◌≤◌, ◌≡◌, refl, ap, none, some, List, [], ◌∷◌, arith, true, Bool,
  length,
}
use thunder_chat.Prelude.Int.{ℤ, pos, decrement}
use thunder_chat.Listing.{erase_loop}

module _ {A : Type 0} where
  -- Elements that are all dead.
  pub data AreDead (dead : A → Bool) : List A → Type 0 where
    no_one_dead : AreDead dead []
    is_dead : (c : A) (cs : List A) → dead c ≡ true → AreDead dead cs → AreDead dead (c ∷ cs)

  -- The second, fourth and so on.
  abbrev pub every_second : List A → List A
  every_second [] = []
  every_second (c ∷ []) = []
  every_second (c ∷ d ∷ cs) = d ∷ every_second cs

  -- When all elements are dead and there are 2k of them, the loop deletes the first, third and so on,
  -- lowers the count by k, and leaves every second of the elements in the list.
  pub erase_loop-skips :
      (dead : A → Bool) (n k : ℕ) (cs : List A)
      → AreDead dead cs
      → length cs ≡ 2 * k
      → k ≤ n
      → erase_loop dead (pos n) cs ≡ some (pos (n - k), every_second cs)
  unfolding erase_loop
  erase_loop-skips dead n k cs no_one_dead size enough =
      ap (λ i. some (pos i, [])) (omega (arith, size))
  erase_loop-skips dead n k cs (is_dead c ds gone no_one_dead) size enough =
      absurd (omega (arith, size))
  erase_loop-skips dead zero k cs (is_dead c _ gone (is_dead d ds _ rest)) size enough =
      absurd (omega (arith, size))
  erase_loop-skips dead (suc n) zero cs (is_dead c _ gone (is_dead d ds _ rest)) size enough =
      absurd (omega (arith, size))
  erase_loop-skips dead (suc n) (suc k) cs (is_dead c _ gone (is_dead d ds _ rest)) size enough =
      rw gone (
        rw (erase_loop-skips dead n k ds rest (omega (arith, size)) (omega arith))
          (ap (λ i. some (pos i, d ∷ every_second ds)) (omega arith)))

  -- When all elements are dead and their number is odd, the loop moves an iterator past the end of the
  -- list.
  pub erase_loop-runs_off :
      (dead : A → Bool) (k : ℕ) (count : ℤ) (cs : List A)
      → AreDead dead cs
      → length cs ≡ 2 * k + 1
      → erase_loop dead count cs ≡ none
  unfolding erase_loop
  erase_loop-runs_off dead k count cs no_one_dead size = absurd (omega (arith, size))
  erase_loop-runs_off dead k count cs (is_dead c ds gone no_one_dead) size = rw gone refl
  erase_loop-runs_off dead zero count cs (is_dead c _ gone (is_dead d ds _ rest)) size =
      absurd (omega (arith, size))
  erase_loop-runs_off dead (suc k) count cs (is_dead c _ gone (is_dead d ds _ rest)) size =
      rw gone (rw (erase_loop-runs_off dead k (decrement count) ds rest (omega (arith, size))) refl)
