-- ===== src/Utilities/Replace.antt =====
-- What `replaceAll` of src/NPUtil.cpp makes of a text.
use thunder_chat.Prelude.{
  ℕ, ◌⊎◌, zero, suc, ◌≤◌, ◌<◌, ◌≡◌, refl, Option, none, some, [], ◌∷◌, ◌++◌, true, false, leb, ltb,
  if◌then◌else◌, length, drop, length-append, length-drop, append-nil, append_assoc, arith,
  Bool-cases, inl, inr,
}
use thunder_chat.Properties.{Text}
use thunder_chat.ChatServer.Split.{is_prefix, is_prefix-drop}
use thunder_chat.Utilities.{replace_loop, replace_all, result_size}

-- `t` is `s` with the occurrences of `olds` replaced by `news`, looked for from the left.
pub data Replaces (olds news : Text) : Text → Text → Type 0 where
  at_end : Replaces olds news [] []
  replaced :
      (s rest t : Text)
      → is_prefix olds s ≡ true
      → s ≡ olds ++ rest
      → Replaces olds news rest t
      → Replaces olds news s (news ++ t)
  kept :
      (c : ℕ) (cs t : Text)
      → is_prefix olds (c ∷ cs) ≡ false
      → Replaces olds news cs t
      → Replaces olds news (c ∷ cs) (c ∷ t)

-- A text where it has room in `result`, with its final zero.
abbrev sized : Text → Option Text
sized t = if ltb (length t) result_size then some t else none

-- The text that the loop makes, and where it has room.
record Makes (olds news s out : Text) (result : Option Text) : Type 0 where
  t : Text
  replaces : Replaces olds news s t
  result_eq : result ≡ sized (out ++ t)

sized_later :
    (out more t : Text)
    → (if leb (length (out ++ more)) result_size then sized ((out ++ more) ++ t) else none)
      ≡ sized (out ++ (more ++ t))
sized_later out more t =
    rw (append_assoc out more t)
      (ground (arith, length-append out more, length-append out (more ++ t), length-append more t))

sized_after :
    (c : ℕ) (out t : Text)
    → (if ltb (length out) result_size then sized ((out ++ (c ∷ [])) ++ t) else none)
      ≡ sized (out ++ (c ∷ t))
sized_after c out t = rw (append_assoc out (c ∷ []) t) (ground (arith, length-append out (c ∷ t)))

replace_loop-Makes :
    (fuel o : ℕ) (olds news s out : Text)
    → length s ≤ fuel
    → Makes (o ∷ olds) news s out (replace_loop fuel (o ∷ olds) news s out)
unfolding replace_loop
replace_loop-Makes fuel o olds news [] out enough = record {
  t = [];
  replaces = at_end;
  result_eq = rw (append-nil out) refl;
}
replace_loop-Makes zero o olds news (c ∷ cs) out enough = absurd (omega (arith, enough))
replace_loop-Makes (suc fuel) o olds news (c ∷ cs) out enough =
    elim (Bool-cases (is_prefix (o ∷ olds) (c ∷ cs))) [
      | inl here ↦
          let rest = drop (length olds) cs in
          let more =
            replace_loop-Makes fuel o olds news rest (out ++ news)
              (omega (arith, enough, length-drop (length olds) cs)) in
          record {
            t = news ++ more.t;
            replaces =
                replaced (c ∷ cs) rest more.t here (is_prefix-drop (o ∷ olds) (c ∷ cs) here)
                  more.replaces;
            result_eq = rw here (rw more.result_eq (sized_later out news more.t));
          }
      | inr not_here ↦
          let more =
            replace_loop-Makes fuel o olds news cs (out ++ (c ∷ [])) (omega (arith, enough)) in
          record {
            t = c ∷ more.t;
            replaces = kept c cs more.t not_here more.replaces;
            result_eq = rw not_here (rw more.result_eq (sized_after c out more.t));
          }
    ]

-- What `replaceAll` leaves in an array of `size` characters.
pub record Replaced (size : ℕ) (olds news s : Text) (result : Option Text) : Type 0 where
  pub t : Text
  pub replaces : Replaces olds news s t
  pub fits : length t < result_size → length t < size → result ≡ some t
  pub overruns : (result_size ≤ length t) ⊎ (size ≤ length t) → result ≡ none

-- `replaceAll` of a text that is not empty ends. With the text in which each occurrence, from the left,
-- is replaced: if that text and its final zero fit into 256 characters and into the array of `s`, then
-- it is what `s` holds afterwards; if not, the function writes outside one of the two arrays.
pub replace_all-Replaced :
    (size o : ℕ) (olds news s : Text)
    → Replaced size (o ∷ olds) news s (replace_all size s (o ∷ olds) news)
unfolding replace_all
replace_all-Replaced size o olds news s =
    let made = replace_loop-Makes (length s) o olds news s [] (omega arith) in
    record {
      t = made.t;
      replaces = made.replaces;
      fits = λ small small_too. rw made.result_eq (ground (arith, small, small_too));
      overruns = λ large. rw made.result_eq (ground (arith, large));
    }
