-- ===== src/ServerInfo/Bandwidth.antt =====
-- `DefineBandwidth` of src/ServerInfoDN.cpp, and what it makes of a number with a suffix.
use thunder_chat.Prelude.{
  ℕ, suc, ◌+◌, ◌-◌, ◌*◌, ◌^◌, ◌≤◌, ◌<◌, ◌≡◌, refl, ap, ◌∙◌, Option, none, some, [], ◌∷◌, ◌++◌, ◌==◌,
  ◌||◌, leb, ltb, if◌then◌else◌, ◌>>=◌, length, take, arith, length-append, take-append_length,
}
use thunder_chat.Prelude.Int.{ℤ, pos, negsuc}
use thunder_chat.Properties.{Text, ltrim}
use thunder_chat.ServerInfo.{atoi, signed, digits}
use thunder_chat.Formats.{decimal}
use thunder_chat.Formats.Numbers.{
  value, AreDigits, no_digit, digit, decimal-AreDigits, value-decimal, length-decimal_le,
  length-decimal_pos,
}

-- The size of `pchBand`.
abbrev pub band_size : ℕ
band_size = 10

-- `s[strlen(s) - 1]`; `none` is a read before the text.
unfoldable pub last_character : Text → Option ℕ
last_character [] = none
last_character (c ∷ []) = some c
last_character (c ∷ d ∷ cs) = last_character (d ∷ cs)

-- An `int` times a factor, as an `unsigned int`; `none` is a product that an `int` does not hold.
unfoldable pub scaled : ℤ → ℕ → Option ℕ
scaled (pos n) factor = if ltb (n * factor) (2 ^ 31) then some (n * factor) else none
scaled (negsuc n) factor =
    if leb (suc n * factor) (2 ^ 31) then some (2 ^ 32 - suc n * factor) else none

-- The number before a suffix; `none` is a copy that `pchBand` does not hold with a zero behind.
unfoldable pub before_suffix : Text → Option ℤ
before_suffix s =
    let number = take (length s - 1) s in
    if ltb (length number) band_size then some (atoi number) else none

-- `DefineBandwidth`: M, m, K, k.
unfoldable pub define_bandwidth : Text → Option ℕ
define_bandwidth s = last_character s >>= λ c.
    if (c == 77) || (c == 109)
    then (before_suffix s >>= λ n. scaled n 1048576)
    else if (c == 75) || (c == 107)
    then (before_suffix s >>= λ n. scaled n 1024)
    else scaled (atoi s) 1024

last_character-append : (s : Text) (c : ℕ) → last_character (s ++ (c ∷ [])) ≡ some c
unfolding last_character
last_character-append [] c = refl
last_character-append (x ∷ []) c = refl
last_character-append (x ∷ y ∷ s) c = last_character-append (y ∷ s) c

digits-value : (s : Text) (n : ℕ) → AreDigits s → digits s n ≡ value s n
unfolding digits
digits-value _ n no_digit = refl
digits-value _ n (digit c cs low high h) =
    ground (arith, low, high, digits-value cs (n * 10 + (c - 48)) h)

atoi-value : (s : Text) → AreDigits s → 0 < length s → atoi s ≡ pos (value s 0)
unfolding atoi signed ltrim
atoi-value _ no_digit some_there = absurd (omega (arith, some_there))
atoi-value _ (digit c cs low high h) some_there =
    ground (arith, low, high, digits-value (c ∷ cs) 0 (digit c cs low high h))

atoi-decimal : (n : ℕ) → atoi (decimal n) ≡ pos n
atoi-decimal n =
    atoi-value (decimal n) (decimal-AreDigits n) (length-decimal_pos n) ∙ ap pos (value-decimal n)

before_suffix-decimal :
    (n c : ℕ) → n < 10 ^ 9 → before_suffix (decimal n ++ (c ∷ [])) ≡ some (pos n)
unfolding before_suffix
before_suffix-decimal n c small =
    rw number (rw (atoi-decimal n) (ground (arith, length-decimal_le 8 n small)))
  where
    size : length (decimal n ++ (c ∷ [])) - 1 ≡ length (decimal n)
    size = omega (arith, length-append (decimal n) (c ∷ []))

    number : take (length (decimal n ++ (c ∷ [])) - 1) (decimal n ++ (c ∷ [])) ≡ decimal n
    number = ap (λ k. take k (decimal n ++ (c ∷ []))) size ∙ take-append_length (decimal n) (c ∷ [])

-- What the last character of a number is.
record IsDigit (r : Option ℕ) : Type 0 where
  c : ℕ
  same : r ≡ some c
  low : 48 ≤ c
  high : c ≤ 57

last_character-IsDigit : (s : Text) → AreDigits s → 0 < length s → IsDigit (last_character s)
unfolding last_character
last_character-IsDigit _ no_digit some_there = absurd (omega (arith, some_there))
last_character-IsDigit _ (digit c [] low high h) some_there = record {
  c = c;
  same = refl;
  low = low;
  high = high;
}
last_character-IsDigit _ (digit c (d ∷ cs) low high h) some_there =
    last_character-IsDigit (d ∷ cs) h (omega arith)

-- A number below 2048 with the suffix M counts in 1024 * 1024, with K in 1024, and without a suffix in 1024
-- too.
pub define_bandwidth-decimal :
    (n : ℕ)
    → n < 2048
    → (define_bandwidth (decimal n ++ (77 ∷ [])) ≡ some (n * 1048576))
      × (define_bandwidth (decimal n ++ (75 ∷ [])) ≡ some (n * 1024))
      × (define_bandwidth (decimal n) ≡ some (n * 1024))
unfolding define_bandwidth scaled
define_bandwidth-decimal n small = (
  rw (last_character-append (decimal n) 77)
      (rw (before_suffix-decimal n 77 (omega (arith, small))) (ground (arith, small))),
  rw (last_character-append (decimal n) 75)
      (rw (before_suffix-decimal n 75 (omega (arith, small))) (ground (arith, small))),
  without,
)
  where
    last : IsDigit (last_character (decimal n))
    last = last_character-IsDigit (decimal n) (decimal-AreDigits n) (length-decimal_pos n)

    without : define_bandwidth (decimal n) ≡ some (n * 1024)
    without = rw last.same (rw (atoi-decimal n) (ground (arith, small, last.low, last.high)))
