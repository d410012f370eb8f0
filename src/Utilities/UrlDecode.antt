-- ===== src/Utilities/UrlDecode.antt =====
-- `URLDecode` of src/NPUtil.cpp against the percent-encoding that it reads.
use thunder_chat.Prelude.{
  ℕ, ◌+◌, ◌/◌, ◌%◌, ◌≤◌, ◌<◌, ◌≡◌, refl, ap, sym, ◌∙◌, [], ◌∷◌, ◌++◌, Bool, true, false, ◌==◌, leb,
  ltb, if◌then◌else◌, append-nil, append_assoc, arith, Bool-cases, inl, inr, ap₂, ltb→lt, ◌&&◌,
}
use thunder_chat.Prelude.Int.{pos, negsuc}
use thunder_chat.Properties.{Text}
use thunder_chat.Formats.{hex_digit}
use thunder_chat.Utilities.{decode_loop, url_decode, is_digit}

-- The percent-encoding of the characters that `escape` chooses.
unfoldable pub encode : (ℕ → Bool) → Text → Text
encode escape [] = []
encode escape (c ∷ cs) =
    let rest = encode escape cs in
    if escape c then 37 ∷ hex_digit (c / 16) ∷ hex_digit (c % 16) ∷ rest else c ∷ rest

-- Characters below 160, the smallest whose first hexadecimal digit is a letter.
pub data AreLow : Text → Type 0 where
  no_character : AreLow []
  low : (c : ℕ) (cs : Text) → c < 160 → AreLow cs → AreLow (c ∷ cs)

hex_digit_small : (h : ℕ) → h < 10 → hex_digit h ≡ h + 48
hex_digit_small h small = ground arith

hex_digit_large : (h : ℕ) → 10 ≤ h → hex_digit h ≡ h + 55
hex_digit_large h large = ground arith

is_digit_small : (h : ℕ) → h < 10 → is_digit (h + 48) ≡ true
is_digit_small h small = ground arith

is_digit_large : (h : ℕ) → 10 ≤ h → is_digit (h + 55) ≡ false
is_digit_large h large = ground arith

is_capital_large : (h : ℕ) → 10 ≤ h → h < 16 → (leb 65 (h + 55) && leb (h + 55) 90) ≡ true
is_capital_large h large small = ground arith

decode_escaped :
    (c code : ℕ) (more out : Text)
    → c < 160
    → decode_loop (37 ∷ hex_digit (c / 16) ∷ hex_digit (c % 16) ∷ more) 0 code out
      ≡ decode_loop more 0 (c / 16) (out ++ (c ∷ []))
unfolding decode_loop
decode_escaped c code more out small = elim (Bool-cases (ltb (c % 16) 10)) [
  | inl digit ↦
      let e : c % 16 < 10 = ltb→lt (c % 16) 10 digit in
      rw
        (
          hex_digit_small (c / 16) (omega arith),
          is_digit_small (c / 16) (omega arith),
          hex_digit_small (c % 16) e,
          is_digit_small (c % 16) e,
        )
        (ap₂ (λ code' d. decode_loop more 0 code' (out ++ (d ∷ []))) (omega arith) (omega arith))
  | inr letter ↦
      let e : 10 ≤ c % 16 = ground arith in
      rw
        (
          hex_digit_small (c / 16) (omega arith),
          is_digit_small (c / 16) (omega arith),
          hex_digit_large (c % 16) e,
          is_digit_large (c % 16) e,
          is_capital_large (c % 16) e (omega arith),
        )
        (ap₂ (λ code' d. decode_loop more 0 code' (out ++ (d ∷ []))) (omega arith) (omega arith))
]

-- What the loop has after an encoded text, in front of what follows.
record Decodes (escape : ℕ → Bool) (t more out : Text) (code : ℕ) : Type 0 where
  code' : ℕ
  same : decode_loop (encode escape t ++ more) 0 code out ≡ decode_loop more 0 code' (out ++ t)

decode-encode :
    (escape : ℕ → Bool) (t more out : Text) (code : ℕ)
    → escape 37 ≡ true
    → AreLow t
    → Decodes escape t more out code
unfolding encode decode_loop
decode-encode escape [] more out code percent no_character = record {
  code' = code;
  same = rw (append-nil out) refl;
}
decode-encode escape (c ∷ cs) more out code percent (low _ _ small l) =
    elim (Bool-cases (escape c)) [
      | inl e ↦
          let d = decode-encode escape cs more (out ++ (c ∷ [])) (c / 16) percent l in
          record {
            code' = d.code';
            same =
                rw e (decode_escaped c code (encode escape cs ++ more) out small)
                ∙ d.same
                ∙ ap (decode_loop more 0 d.code') (append_assoc out (c ∷ []) cs);
          }
      | inr e ↦
          let plain : (c == 37) ≡ false = ground (arith, e, percent) in
          let d = decode-encode escape cs more (out ++ (c ∷ [])) code percent l in
          record {
            code' = d.code';
            same =
                rw (e, plain) d.same
                ∙ ap (decode_loop more 0 d.code') (append_assoc out (c ∷ []) cs);
          }
    ]

-- `URLDecode` undoes the percent-encoding of any text of characters below 160, whichever characters are
-- encoded, the percent sign among them.
pub url_decode-encode :
    (escape : ℕ → Bool) (t : Text)
    → escape 37 ≡ true
    → AreLow t
    → url_decode (encode escape t) ≡ (pos 0, t)
unfolding url_decode decode_loop
url_decode-encode escape t percent l =
    let d = decode-encode escape t [] [] 0 percent l in
    ap (λ s. decode_loop s 0 0 []) (sym (append-nil (encode escape t))) ∙ d.same

-- Of a text that goes on with an encoded character of 160 or more, whose first hexadecimal digit is a
-- letter, `URLDecode` gives -1 and only what stands before it.
pub url_decode-refuses :
    (escape : ℕ → Bool) (t rest : Text) (c : ℕ)
    → escape 37 ≡ true
    → AreLow t
    → 160 ≤ c
    → url_decode (encode escape t ++ (37 ∷ hex_digit (c / 16) ∷ rest)) ≡ (negsuc 0, t)
unfolding url_decode decode_loop
url_decode-refuses escape t rest c percent l large =
    let d = decode-encode escape t (37 ∷ hex_digit (c / 16) ∷ rest) [] 0 percent l in
    d.same ∙ rw (hex_digit_large (c / 16) (omega arith), is_digit_large (c / 16) (omega arith)) refl
