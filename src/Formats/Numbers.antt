-- ===== src/Formats/Numbers.antt =====
-- What %d of `sprintf` prints.
use thunder_chat.Prelude.{
  ℕ, zero, suc, ◌+◌, ◌-◌, ◌*◌, ◌/◌, ◌%◌, ◌^◌, ◌≤◌, ◌<◌, ◌≡◌, ap, sym, ◌∙◌, [], ◌∷◌, ltb, length,
  arith, length-append, length-replicate, replicate, Bool-cases, inl, inr,
}
use thunder_chat.Properties.{Text}
use thunder_chat.Formats.{decimal_loop, decimal, zero_padded}

-- The number whose digits follow those of `n`.
abbrev pub value : Text → ℕ → ℕ
value [] n = n
value (c ∷ cs) n = value cs (n * 10 + (c - 48))

value-decimal_loop :
    (fuel n : ℕ) (out : Text) → n < fuel → value (decimal_loop fuel n out) 0 ≡ value out n
unfolding decimal_loop
value-decimal_loop zero n out enough = absurd (omega (arith, enough))
value-decimal_loop (suc fuel) n out enough = elim (Bool-cases (ltb n 10)) [
  | inl e ↦ rw e (ap (value out) (omega arith))
  | inr e ↦ rw e (
      value-decimal_loop fuel (n / 10) ((48 + n % 10) ∷ out) (ground (arith, e, enough))
      ∙ ap (value out) (omega arith))
]

-- Different numbers are printed differently.
pub decimal-injective : (n m : ℕ) → decimal n ≡ decimal m → n ≡ m
unfolding decimal
decimal-injective n m e =
    sym (value-decimal_loop (suc n) n [] (omega arith))
    ∙ ap (λ t. value t 0) e
    ∙ value-decimal_loop (suc m) m [] (omega arith)

length-decimal_loop :
    (k fuel n : ℕ) (out : Text)
    → n < 10 ^ suc k
    → length (decimal_loop fuel n out) ≤ suc k + length out
unfolding decimal_loop
length-decimal_loop k zero n out small = omega arith
length-decimal_loop zero (suc fuel) n out small = ground (arith, small)
length-decimal_loop (suc k) (suc fuel) n out small = elim (Bool-cases (ltb n 10)) [
  | inl e ↦ rw e (omega arith)
  | inr e ↦ rw e (
      omega
        (arith, length-decimal_loop k fuel (n / 10) ((48 + n % 10) ∷ out) (omega (arith, small))))
]

pub length-zero_padded : (w k n : ℕ) → n < 10 ^ suc k → w ≤ suc k → length (zero_padded w n) ≤ suc k
unfolding zero_padded decimal
length-zero_padded w k n small fits = omega (
  arith,
  length-append (replicate (w - length (decimal n)) 48) (decimal n),
  length-replicate {A = ℕ} (w - length (decimal n)) 48,
  length-decimal_loop k (suc n) n [] small,
  fits,
)

pub length-two_digits : (n : ℕ) → n < 100 → length (zero_padded 2 n) ≡ 2
unfolding zero_padded decimal
length-two_digits n small = omega (
  arith,
  length-append (replicate (2 - length (decimal n)) 48) (decimal n),
  length-replicate {A = ℕ} (2 - length (decimal n)) 48,
  length-decimal_loop 1 (suc n) n [] small,
)

-- A text of decimal digits.
pub data AreDigits : Text → Type 0 where
  no_digit : AreDigits []
  digit : (c : ℕ) (cs : Text) → 48 ≤ c → c ≤ 57 → AreDigits cs → AreDigits (c ∷ cs)

decimal_loop-AreDigits :
    (fuel n : ℕ) (out : Text) → AreDigits out → AreDigits (decimal_loop fuel n out)
unfolding decimal_loop
decimal_loop-AreDigits zero n out h = h
decimal_loop-AreDigits (suc fuel) n out h = elim (Bool-cases (ltb n 10)) [
  | inl e ↦ rw e (digit (48 + n) out (omega arith) (ground (arith, e)) h)
  | inr e ↦ rw e (
      decimal_loop-AreDigits fuel (n / 10) ((48 + n % 10) ∷ out)
        (digit (48 + n % 10) out (omega arith) (omega arith) h))
]

pub decimal-AreDigits : (n : ℕ) → AreDigits (decimal n)
unfolding decimal
decimal-AreDigits n = decimal_loop-AreDigits (suc n) n [] no_digit

pub value-decimal : (n : ℕ) → value (decimal n) 0 ≡ n
unfolding decimal
value-decimal n = value-decimal_loop (suc n) n [] (omega arith)

pub length-decimal_le : (k n : ℕ) → n < 10 ^ suc k → length (decimal n) ≤ suc k
unfolding decimal
length-decimal_le k n small = omega (arith, length-decimal_loop k (suc n) n [] small)

length-decimal_loop_pos :
    (fuel n : ℕ) (out : Text) → length out < length (decimal_loop (suc fuel) n out)
unfolding decimal_loop
length-decimal_loop_pos zero n out = ground arith
length-decimal_loop_pos (suc fuel) n out = elim (Bool-cases (ltb n 10)) [
  | inl e ↦ rw e (omega arith)
  | inr e ↦ rw e (omega (arith, length-decimal_loop_pos fuel (n / 10) ((48 + n % 10) ∷ out)))
]

pub length-decimal_pos : (n : ℕ) → 0 < length (decimal n)
unfolding decimal
length-decimal_pos n = length-decimal_loop_pos n n []
