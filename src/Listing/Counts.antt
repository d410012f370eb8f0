-- ===== src/Listing/Counts.antt =====
-- `m_iConnCount`, the count that both servers keep beside their list of connections (src/ChatServer.cpp,
-- src/ChatManager.cpp), when threads change it without a mutex.
use thunder_chat.Prelude.{ℕ, zero, suc, ◌+◌, ◌<◌, ◌≡◌, refl, ap, ◌∙◌, sym, arith, false}
use thunder_chat.Prelude.Int.{ℤ, pos, negsuc, increment, decrement, at_least}

-- A count with `n` lost increments put back.
abbrev pub raised : ℕ → ℤ → ℤ
raised zero z = z
raised (suc n) z = increment (raised n z)

increment-decrement : (z : ℤ) → increment (decrement z) ≡ z
increment-decrement (pos zero) = refl
increment-decrement (pos (suc n)) = refl
increment-decrement (negsuc n) = refl

decrement-increment : (z : ℤ) → decrement (increment z) ≡ z
decrement-increment (pos n) = refl
decrement-increment (negsuc zero) = refl
decrement-increment (negsuc (suc n)) = refl

pub raised-increment : (n : ℕ) (z : ℤ) → raised n (increment z) ≡ increment (raised n z)
raised-increment zero z = refl
raised-increment (suc n) z = ap increment (raised-increment n z)

pub raised-decrement : (n : ℕ) (z : ℤ) → raised n (decrement z) ≡ decrement (raised n z)
raised-decrement n z =
    sym (decrement-increment (raised n (decrement z)))
    ∙ ap decrement (sym (raised-increment n (decrement z)) ∙ ap (raised n) (increment-decrement z))

pub raised_suc : (n k : ℕ) (z : ℤ) → k ≡ n + 1 → raised k z ≡ increment (raised n z)
raised_suc n k z e = let next : k ≡ suc n = omega (arith, e) in rw next refl

-- An increment that was missing is made.
pub raised_again : (n k : ℕ) (z : ℤ) → k ≡ n + 1 → raised n (increment z) ≡ raised k z
raised_again n k z e = raised-increment n z ∙ sym (raised_suc n k z e)

-- An increment that is lost is put back.
pub raised-lost : (n k : ℕ) (z : ℤ) → k ≡ n + 1 → raised k (decrement z) ≡ raised n z
raised-lost n k z e =
    raised_suc n k (decrement z) e
    ∙ sym (raised-increment n (decrement z))
    ∙ ap (raised n) (increment-decrement z)

raised_pos : (n k : ℕ) → raised n (pos k) ≡ pos (n + k)
raised_pos zero k = ap pos (omega arith)
raised_pos (suc n) k = ap increment (raised_pos n k) ∙ ap pos (omega arith)

-- Fewer than `n` increments do not raise -(k + 1) far.
raised_negsuc : (n k total : ℕ) → raised n (negsuc k) ≡ pos total → total < n
raised_negsuc zero k total e = absurd (ground (arith, e))
raised_negsuc (suc n) zero total e =
    ground (arith, sym e ∙ sym (raised-increment n (negsuc 0)) ∙ raised_pos n 0)
raised_negsuc (suc n) (suc k) total e =
    omega (arith, raised_negsuc n k total (raised-increment n (negsuc (suc k)) ∙ e))

-- What the test of the limit says of the true number of connections.
pub below_limit :
    (n limit total : ℕ) (z : ℤ)
    → raised n z ≡ pos total
    → at_least z (pos limit) ≡ false
    → total < limit + n
below_limit n limit total (pos k) e room = ground (arith, raised_pos n k, e, room)
below_limit n limit total (negsuc k) e room = omega (arith, raised_negsuc n k total e)
