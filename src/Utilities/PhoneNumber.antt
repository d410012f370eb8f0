-- ===== src/Utilities/PhoneNumber.antt =====
-- What `Change344To444FormatPhoneNumber` of src/NPUtil.cpp does with a number in its array.
use thunder_chat.Prelude.{
  subst₂, ap₂, ◌⊎◌, inl, inr, Bool-cases, ℕ, ◌+◌, ◌≤◌, ◌≡◌, refl, ap, sym, ◌∙◌, some, List, [], ◌∷◌,
  ◌++◌, true, false, ◌==◌, if◌then◌else◌, length, drop, length-append, append_assoc,
  drop-append_length, arith, le→leb,
}
use thunder_chat.Ring.{store, write_block_start}
use thunder_chat.Properties.{Text}
use thunder_chat.ChatServer.Split.{is_prefix}
use thunder_chat.ServerInfo.Texts.{HasNoZero, no_character, character}
use thunder_chat.Utilities.{strlen, read_from, padded, change_344_to_444}

strlen_text : (t rest : List ℕ) → HasNoZero t → strlen (t ++ (0 ∷ rest)) ≡ some (length t)
unfolding strlen
strlen_text _ rest no_character = refl
strlen_text _ rest (character c cs other h) = ground (arith, other, strlen_text cs rest h)

padded_text : (t : List ℕ) → HasNoZero t → padded t ≡ t
unfolding padded
padded_text _ no_character = refl
padded_text _ (character c cs other h) = ground (arith, other, padded_text cs h)

read_from_text :
    (before t rest : List ℕ) → read_from (length t) (length before) (before ++ (t ++ rest)) ≡ some t
unfolding read_from
read_from_text before [] rest = refl
read_from_text before (c ∷ cs) rest =
    let more : read_from (length cs) (length before + 1) (before ++ (c ∷ (cs ++ rest))) ≡ some cs =
      subst₂ (λ i block. read_from (length cs) i block ≡ some cs) (length-append before (c ∷ []))
        (append_assoc before (c ∷ []) (cs ++ rest)) (read_from_text (before ++ (c ∷ [])) cs rest) in
    rw (drop-append_length before ((c ∷ cs) ++ rest), read_from) (rw more refl)

reads_part :
    (n i : ℕ) (block before t rest : List ℕ)
    → n ≡ length t
    → i ≡ length before
    → block ≡ before ++ (t ++ rest)
    → read_from n i block ≡ some t
reads_part n i block before t rest e f g =
    ap (λ k. read_from k i block) e ∙ ap₂ (read_from (length t)) f g ∙ read_from_text before t rest

store_start :
    (block t : List ℕ)
    → length t ≤ length block
    → store block 0 t ≡ some (t ++ drop (length t) block)
store_start block t h =
    rw (le→leb (0 + length t) (length block) (omega (arith, h)))
      (ap some (write_block_start 0 block t h))

stored :
    (block t : List ℕ)
    → HasNoZero t
    → length t ≡ 12
    → 12 ≤ length block
    → store block 0 (padded t) ≡ some (t ++ drop 12 block)
stored block t h twelve room =
    ap (store block 0) (padded_text t h)
    ∙ store_start block t (omega (arith, room))
    ∙ ap (λ n. some (t ++ drop n block)) twelve

-- The number in the form of three and four and four digits.
abbrev pub formatted : Text → Text → Text
formatted company digits = company ++ (48 ∷ (if length digits == 7 then 48 ∷ digits else digits))

-- The number of a company with three digits, and seven or eight more, ended by zero in an array of at
-- least twelve characters.
pub record IsNumber (company digits rest : Text) : Type 0 where
  pub three : length company ≡ 3
  pub seven_or_eight : (length digits ≡ 7) ⊎ (length digits ≡ 8)
  pub no_zero : HasNoZero (company ++ digits)
  pub room : 12 ≤ length company + length digits + 1 + length rest

formatted_no_zero :
    (company digits : Text) → HasNoZero (company ++ digits) → HasNoZero (formatted company digits)
formatted_no_zero [] digits h = elim (Bool-cases (length digits == 7)) [
  | inl e ↦ rw e (character 48 (48 ∷ digits) (omega arith) (character 48 digits (omega arith) h))
  | inr e ↦ rw e (character 48 digits (omega arith) h)
]
formatted_no_zero (c ∷ cs) digits (character _ _ other h) =
    character c (formatted cs digits) other (formatted_no_zero cs digits h)

formatted_seven :
    (company digits : Text)
    → length digits ≡ 7
    → formatted company digits ≡ company ++ (48 ∷ 48 ∷ digits)
formatted_seven company digits e =
    let is_seven : (length digits == 7) ≡ true = ground arith in rw is_seven refl

formatted_eight :
    (company digits : Text)
    → length digits ≡ 8
    → formatted company digits ≡ company ++ (48 ∷ digits)
formatted_eight company digits e =
    let is_other : (length digits == 7) ≡ false = ground arith in rw is_other refl

formatted_twelve :
    (company digits rest : Text)
    → IsNumber company digits rest
    → length (formatted company digits) ≡ 12
formatted_twelve company digits rest v = by_length v.seven_or_eight
  where
    by_length : (length digits ≡ 7) ⊎ (length digits ≡ 8) → length (formatted company digits) ≡ 12
    by_length (inl e) =
        ap length (formatted_seven company digits e)
        ∙ omega (arith, length-append company (48 ∷ 48 ∷ digits), v.three, e)
    by_length (inr e) =
        ap length (formatted_eight company digits e)
        ∙ omega (arith, length-append company (48 ∷ digits), v.three, e)

-- A string of ten or eleven characters, three and then seven or eight, that does not begin with "10", in
-- an array of at least twelve characters: `Change344To444FormatPhoneNumber` puts the form with twelve characters at the start of the array, and
-- leaves what stands behind; so the final zero of a string of eleven characters is lost.
pub change_344_to_444-formatted :
    (company digits rest : Text)
    → IsNumber company digits rest
    → is_prefix (49 ∷ 48 ∷ []) ((company ++ digits) ++ (0 ∷ rest)) ≡ false
    → change_344_to_444 ((company ++ digits) ++ (0 ∷ rest))
      ≡ some (formatted company digits ++ drop 12 ((company ++ digits) ++ (0 ∷ rest)))
unfolding change_344_to_444
change_344_to_444-formatted company digits rest v other = by_length v.seven_or_eight
  where
    block : List ℕ
    block = (company ++ digits) ++ (0 ∷ rest)

    parts : block ≡ company ++ (digits ++ (0 ∷ rest))
    parts = append_assoc company digits (0 ∷ rest)

    company_read : read_from 3 0 block ≡ some company
    company_read = reads_part 3 0 block [] company (digits ++ (0 ∷ rest)) (sym v.three) refl parts

    size : (n : ℕ) → length digits ≡ n → strlen block ≡ some (3 + n)
    size n e =
        strlen_text (company ++ digits) rest v.no_zero
        ∙ ap some (omega (arith, length-append company digits, v.three, e))

    room : 12 ≤ length block
    room =
        omega (
          arith,
          v.room,
          length-append (company ++ digits) (0 ∷ rest),
          length-append company digits,
        )

    by_length :
        (length digits ≡ 7) ⊎ (length digits ≡ 8)
        → change_344_to_444 block ≡ some (formatted company digits ++ drop 12 block)
    by_length (inl e) = rw (size 7 e) (
        rw other (
          rw company_read (
            rw (reads_part 7 3 block company digits (0 ∷ rest) (sym e) (sym v.three) parts) (
              ap (λ t. store block 0 (padded t)) (sym (formatted_seven company digits e))
              ∙ stored block (formatted company digits) (formatted_no_zero company digits v.no_zero)
                  (formatted_twelve company digits rest v) room))))
    by_length (inr e) = rw (size 8 e) (
        rw other (
          rw company_read (
            rw (reads_part 8 3 block company digits (0 ∷ rest) (sym e) (sym v.three) parts) (
              ap (λ t. store block 0 (padded t)) (sym (formatted_eight company digits e))
              ∙ stored block (formatted company digits) (formatted_no_zero company digits v.no_zero)
                  (formatted_twelve company digits rest v) room))))
