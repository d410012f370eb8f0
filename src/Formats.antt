-- ===== src/Formats.antt =====
-- The conversions of `sprintf` that src/NPLog.cpp uses, on numbers from 0 on.
pub mod Numbers
use thunder_chat.Prelude.{
  ℕ, zero, suc, ◌+◌, ◌-◌, ◌/◌, ◌%◌, List, [], ◌∷◌, ◌++◌, ltb, if◌then◌else◌, length, replicate,
}
use thunder_chat.Properties.{Text}

-- The digits of `n`, before `out`.
unfoldable pub decimal_loop : ℕ → ℕ → Text → Text
decimal_loop zero n out = out
decimal_loop (suc fuel) n out =
    let more = decimal_loop fuel (n / 10) ((48 + n % 10) ∷ out) in
    if ltb n 10 then (48 + n) ∷ out else more

-- %d
unfoldable pub decimal : ℕ → Text
decimal n = decimal_loop (suc n) n []

-- %0wd
unfoldable pub zero_padded : ℕ → ℕ → Text
zero_padded w n = replicate (w - length (decimal n)) 48 ++ decimal n

-- A digit of %X.
abbrev pub hex_digit : ℕ → ℕ
hex_digit n = if ltb n 10 then n + 48 else n + 55
