-- ===== src/CircularBuff/RoundTrip.antt =====
-- What is put into an empty buffer of src/CircularBuff.cpp comes out of it: the way of a chat message,
-- which one call of `Put` stores and one call of `Get` drains.
use thunder_chat.Prelude.{
  ℕ, ◌+◌, ◌*◌, ◌≤◌, ◌<◌, ◌≡◌, ap, ◌∙◌, sym, some, List, [], ◌++◌, take, length, arith, ◌⊎◌, drop,
  length-take_le, length-drop, length-append, length-zero, take-length,
}
use thunder_chat.Prelude.Int.{pos}
use thunder_chat.CircularBuff.{CircularBuff, put, get, get_total_size, get_used_size, get_free_size}
use thunder_chat.CircularBuff.Bounds.{IsValid, contents, length-contents}
use thunder_chat.CircularBuff.Write.{PutOutcome, refused, appended, put_total}
use thunder_chat.CircularBuff.Read.{
  GetOutcome, ReadsRight, ReadsRight-short, not_enough, taken, past_end, spare_byte, get_total,
}

-- A buffer that `Put` and then `Get` leave empty and valid, having handed over `bytes`.
pub data PassesOn (b : CircularBuff) (src : List ℕ) (n : ℕ) : Type 0 where
  passed :
      (b' b'' : CircularBuff)
      → put b src n ≡ some (pos n, b')
      → get b' n ≡ some (pos n, take n src, b'')
      → IsValid b''
      → get_used_size b'' ≡ 0
      → PassesOn b src n

drained :
    (b b' : CircularBuff) (src : List ℕ) (n : ℕ)
    → n ≤ length src
    → put b src n ≡ some (pos n, b')
    → contents b' ≡ take n src
    → b'.use_size ≡ n
    → GetOutcome b' n
    → ReadsRight b' n
    → PassesOn b src n
unfolding get_used_size
drained b b' src n given e c u (not_enough few _) ok = absurd (omega arith)
drained b b' src n given e c u (taken b'' held _ g v left _ _) ok =
    passed b' b'' e (g ∙ ap (λ l. some (pos n, l, b'')) (ap (take n) c ∙ all)) v
      (sym (length-contents b'') ∙ ap length (left ∙ ap (drop n) c) ∙ none_left)
  where
    all : take n (take n src) ≡ take n src
    all = take-length (take n src) n (omega (arith, length-take_le n src given))

    none_left : length (drop n (take n src)) ≡ 0
    none_left = omega (arith, length-drop n (take n src), length-take_le n src given)
drained b b' src n given e c u (past_end _ wrong far _) ok = absurd (omega (arith, ok))
drained b b' src n given e c u (spare_byte _ wrong at_end _) ok = absurd (omega (arith, ok))

arrives :
    (b : CircularBuff) (src : List ℕ) (n : ℕ)
    → IsValid b
    → b.use_size ≡ 0
    → n ≤ length src
    → n ≤ b.buffer_size
    → (b.head + n ≤ b.buffer_size) ⊎ (2 * n < b.buffer_size)
    → PutOutcome b src n
    → PassesOn b src n
unfolding get_free_size
arrives b src n v none_held given fits short (refused over _) = absurd (omega arith)
arrives b src n v none_held given fits short (appended b' _ e v' c h s) =
    drained b b' src n given e (c ∙ ap (λ l. l ++ take n src) empty) used (get_total b' n v') right
  where
    empty : contents b ≡ []
    empty = length-zero (contents b) (length-contents b ∙ none_held)

    used : b'.use_size ≡ n
    used = omega (
      arith,
      length-contents b',
      ap length c,
      length-append (contents b) (take n src),
      length-contents b,
      length-take_le n src given,
    )

    right : ReadsRight b' n
    right = ReadsRight-short b' n v' used (omega (arith, h, s, short))

-- `Put` of `n` bytes into an empty valid buffer and then `Get` of `n` bytes hands over exactly those
-- bytes and leaves the buffer empty and valid, if the bytes end before the end of the array or are
-- fewer than half its size.
pub get-put :
    (b : CircularBuff) (src : List ℕ) (n : ℕ)
    → IsValid b
    → get_used_size b ≡ 0
    → n ≤ length src
    → (b.head + n ≤ get_total_size b) ⊎ (2 * n < get_total_size b)
    → PassesOn b src n
unfolding get_used_size get_total_size
get-put b src n v none_held given short =
    arrives b src n v none_held given (omega (arith, short)) short (put_total b src n v given)
