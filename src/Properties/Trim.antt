-- ===== src/Properties/Trim.antt =====
-- What LTrim and RTrim of src/NPUtil.cpp leave of a text with white space around it.
use thunder_chat.Prelude.{
  ℕ, ◌+◌, ◌≡◌, refl, ap, ◌∙◌, [], ◌∷◌, ◌++◌, true, arith, length, take, take-length, take-append,
  if◌then◌else◌,
}
use thunder_chat.Properties.{Text, is_space, ltrim, trim_point, rtrim}

-- White space only.
pub data IsBlank : Text → Type 0 where
  nothing : IsBlank []
  blank : (c : ℕ) (cs : Text) → is_space c ≡ true → IsBlank cs → IsBlank (c ∷ cs)

-- A text that starts and ends with something else than white space.
pub record IsClean (s : Text) : Type 0 where
  pub starts : (after : Text) → ltrim (s ++ after) ≡ s ++ after
  pub ends : trim_point s 0 0 ≡ length s

ltrim-blank : (pad s : Text) → IsBlank pad → ltrim (pad ++ s) ≡ ltrim s
unfolding ltrim
ltrim-blank pad s nothing = refl
ltrim-blank pad s (blank c cs h b) = rw h (ltrim-blank cs s b)

trim_point-blank : (pad : Text) (i kept : ℕ) → IsBlank pad → trim_point pad i kept ≡ kept
unfolding trim_point
trim_point-blank pad i kept nothing = refl
trim_point-blank pad i kept (blank c cs h b) = rw h (trim_point-blank cs (i + 1) kept b)

trim_point-append :
    (s pad : Text) (i kept : ℕ) → IsBlank pad → trim_point (s ++ pad) i kept ≡ trim_point s i kept
unfolding trim_point
trim_point-append [] pad i kept b = trim_point-blank pad i kept b
trim_point-append (c ∷ cs) pad i kept b =
    trim_point-append cs pad (i + 1) (if is_space c then kept else i + 1) b

-- `LTrim` and `RTrim` take the white space around a text off, and nothing else.
pub trim-padded :
    (before s after : Text)
    → IsBlank before
    → IsClean s
    → IsBlank after
    → rtrim (ltrim (before ++ (s ++ after))) ≡ s
unfolding rtrim
trim-padded before s after b c d =
    ap rtrim (ltrim-blank before (s ++ after) b ∙ c.starts after)
    ∙ ap (λ n. take n (s ++ after)) (trim_point-append s after 0 0 d ∙ c.ends)
    ∙ take-append s after (length s) (omega arith)
    ∙ take-length s (length s) (omega arith)
