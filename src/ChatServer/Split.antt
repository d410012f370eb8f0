-- ===== src/ChatServer/Split.antt =====
-- `split` of src/ChatServer.cpp, which cuts the list of the managers' addresses at each comma.
use thunder_chat.Prelude.{
  ℕ, zero, suc, ◌<◌, ◌≡◌, refl, ap, ap₂, sym, ◌∙◌, Option, none, some, List, [], ◌∷◌, ◌++◌, Bool,
  true, false, ◌&&◌, ◌==◌, if◌then◌else◌, ◌>>=◌, length, drop, Bool-cases, Option-cases, inl, inr,
  arith, length-append, some-inj, subst₂,
}

-- Whether `s` starts with `d`.
unfoldable pub is_prefix : List ℕ → List ℕ → Bool
is_prefix [] s = true
is_prefix (c ∷ cs) [] = false
is_prefix (c ∷ cs) (x ∷ xs) = (c == x) && is_prefix cs xs

-- `find`: what stands before and behind the first `d`.
unfoldable pub find : List ℕ → List ℕ → Option (List ℕ × List ℕ)
find d [] = if is_prefix d [] then some ([], []) else none
find d (x ∷ xs) =
    let later = find d xs in
    if is_prefix d (x ∷ xs)
    then some ([], drop (length d) (x ∷ xs))
    else (later >>= λ (token, rest). some (x ∷ token, rest))

-- `split(s, delimiter)`; `none` is a loop that has not ended.
unfoldable pub split : ℕ → List ℕ → List ℕ → Option (List (List ℕ))
split zero d s = none
split (suc fuel) d s = elim (find d s) [
  | none ↦ some (s ∷ [])
  | some (token, rest) ↦ split fuel d rest >>= λ tokens. some (token ∷ tokens)
]

-- The tokens with the delimiter between them.
abbrev pub join : List ℕ → List (List ℕ) → List ℕ
join d [] = []
join d (t ∷ []) = t
join d (t ∷ u ∷ ts) = t ++ (d ++ join d (u ∷ ts))

-- Tokens in none of which the delimiter occurs.
pub data AreTokens (d : List ℕ) : List (List ℕ) → Type 0 where
  last_token : (t : List ℕ) → find d t ≡ none → AreTokens d (t ∷ [])
  tokens :
      (t : List ℕ) (ts : List (List ℕ)) → find d t ≡ none → AreTokens d ts → AreTokens d (t ∷ ts)

pub is_prefix-drop : (d s : List ℕ) → is_prefix d s ≡ true → s ≡ d ++ drop (length d) s
unfolding is_prefix
is_prefix-drop [] s h = refl
is_prefix-drop (c ∷ cs) [] h = absurd (ground (arith, h))
is_prefix-drop (c ∷ cs) (x ∷ xs) h =
    ap₂ ◌∷◌ (ground (arith, h)) (is_prefix-drop cs xs (ground (arith, h)))

is_prefix-append : (d s more : List ℕ) → is_prefix d s ≡ true → is_prefix d (s ++ more) ≡ true
unfolding is_prefix
is_prefix-append [] s more h = refl
is_prefix-append (c ∷ cs) [] more h = absurd (ground (arith, h))
is_prefix-append (c ∷ cs) (x ∷ xs) more h =
    ground (arith, h, is_prefix-append cs xs more (ground (arith, h)))

-- A delimiter of one character or more, found for the first time.
pub record FindsFirst (d s token rest : List ℕ) : Type 0 where
  pub whole : s ≡ token ++ (d ++ rest)
  pub first : find d token ≡ none

found_later :
    (c x : ℕ) (cs xs token rest : List ℕ)
    → is_prefix (c ∷ cs) (x ∷ xs) ≡ false
    → FindsFirst (c ∷ cs) xs token rest
    → FindsFirst (c ∷ cs) (x ∷ xs) (x ∷ token) rest
unfolding find
found_later c x cs xs token rest not_here f = record {
  whole = ap (◌∷◌ x) f.whole;
  first = elim (Bool-cases (is_prefix (c ∷ cs) (x ∷ token))) [
    | inr e ↦ rw e (rw f.first refl)
    | inl e ↦ absurd (
        ground (
          arith,
          not_here,
          ap (λ l. is_prefix (c ∷ cs) (x ∷ l)) f.whole,
          is_prefix-append (c ∷ cs) (x ∷ token) ((c ∷ cs) ++ rest) e,
        ))
  ];
}

pub find-first :
    (c : ℕ) (cs s token rest : List ℕ)
    → find (c ∷ cs) s ≡ some (token, rest)
    → FindsFirst (c ∷ cs) s token rest
unfolding find is_prefix
find-first c cs [] token rest e = absurd (ground (arith, e))
find-first c cs (x ∷ xs) token rest e = elim (Bool-cases (is_prefix (c ∷ cs) (x ∷ xs))) [
  | inl here ↦
      let p = some-inj (rw here at e) in
      subst₂ (FindsFirst (c ∷ cs) (x ∷ xs)) (ap (λ q. q.0) p) (ap (λ q. q.1) p)
        (record { whole = is_prefix-drop (c ∷ cs) (x ∷ xs) here; first = refl })
  | inr later ↦ elim (Option-cases (find (c ∷ cs) xs)) [
    | inl n ↦ absurd (ground (arith, rw (later, n) at e))
    | inr ((t, r), n) ↦
        let p = some-inj (rw (later, n) at e) in
        subst₂ (FindsFirst (c ∷ cs) (x ∷ xs)) (ap (λ q. q.0) p) (ap (λ q. q.1) p)
          (found_later c x cs xs t r later (find-first c cs xs t r n))
  ]
]

pub record Splits (d s : List ℕ) (result : Option (List (List ℕ))) : Type 0 where
  pub parts : List (List ℕ)
  pub result_eq : result ≡ some parts
  pub joined : join d parts ≡ s
  pub are_tokens : AreTokens d parts

join-cons :
    (d t : List ℕ) (ts : List (List ℕ)) → AreTokens d ts → join d (t ∷ ts) ≡ t ++ (d ++ join d ts)
join-cons d t ts (last_token u e) = refl
join-cons d t ts (tokens u us e more) = refl

-- With a delimiter of at least one character, and one turn of the loop more than the text has
-- characters, `split` ends; joining the tokens with the delimiter gives the text back, and the delimiter
-- occurs in no token.
pub split-join :
    (fuel c : ℕ) (cs s : List ℕ) → length s < fuel → Splits (c ∷ cs) s (split fuel (c ∷ cs) s)
unfolding split
split-join zero c cs s enough = absurd (omega (arith, enough))
split-join (suc fuel) c cs s enough = elim (Option-cases (find (c ∷ cs) s)) [
  | inl e ↦ record {
    parts = s ∷ [];
    result_eq = rw (e, split) refl;
    joined = refl;
    are_tokens = last_token s e;
  }
  | inr ((token, rest), e) ↦
      let f = find-first c cs s token rest e in
      let more = split-join fuel c cs rest (
        omega (
          arith,
          enough,
          ap length f.whole,
          length-append token ((c ∷ cs) ++ rest),
          length-append cs rest,
        )) in
      record {
        parts = token ∷ more.parts;
        result_eq = rw (e, split) (rw more.result_eq refl);
        joined =
            join-cons (c ∷ cs) token more.parts more.are_tokens
            ∙ ap (λ l. token ++ ((c ∷ cs) ++ l)) more.joined
            ∙ sym f.whole;
        are_tokens = tokens token more.parts f.first more.are_tokens;
      }
]
