-- ===== src/Utilities/Request.antt =====
-- What `GetQueryPage` and `GetURL` of src/NPUtil.cpp find in a request.
use thunder_chat.Prelude.{
  ℕ, zero, suc, ◌≤◌, ◌≡◌, ◌≢◌, refl, ap, sym, ◌∙◌, subst, Option, none, some, [], ◌∷◌, ◌++◌, true,
  length, drop, length-append, append_assoc, drop-append_length, arith, Bool-cases, Option-cases,
  inl, inr, some-inj,
}
use thunder_chat.Properties.{Text}
use thunder_chat.ChatServer.Split.{is_prefix, find, find-first}
use thunder_chat.Utilities.{between, get_query_page, get_url}

drop-append : (k : ℕ) (xs ys : Text) → k ≤ length xs → drop k (xs ++ ys) ≡ drop k xs ++ ys
drop-append zero xs ys h = refl
drop-append (suc k) [] ys h = absurd (omega (arith, h))
drop-append (suc k) (x ∷ xs) ys h = drop-append k xs ys (omega (arith, h))

is_prefix_self : (d rest : Text) → is_prefix d (d ++ rest) ≡ true
unfolding is_prefix
is_prefix_self [] rest = refl
is_prefix_self (c ∷ c_rest) rest = ground (arith, is_prefix_self c_rest rest)

-- A search that ends at or before a given place.
record FindsBy (d s rest : Text) : Type 0 where
  token : Text
  skipped : Text
  found : find d s ≡ some (token, skipped ++ rest)

find_by :
    (c : ℕ) (c_rest token rest : Text) → FindsBy (c ∷ c_rest) (token ++ ((c ∷ c_rest) ++ rest)) rest
unfolding find
find_by c c_rest [] rest = record {
  token = [];
  skipped = [];
  found =
      rw (is_prefix_self (c ∷ c_rest) rest)
        (ap (λ r. some ([], r)) (drop-append_length c_rest rest));
}
find_by c c_rest (x ∷ xs) rest =
    elim (Bool-cases (is_prefix (c ∷ c_rest) (x ∷ (xs ++ ((c ∷ c_rest) ++ rest))))) [
      | inl here ↦ record {
        token = [];
        skipped = drop (length c_rest) (xs ++ (c ∷ c_rest));
        found = rw here (
            ap (λ r. some ([], r))
              (ap (drop (length c_rest)) (sym (append_assoc xs (c ∷ c_rest) rest))
                ∙ drop-append (length c_rest) (xs ++ (c ∷ c_rest)) rest
                    (omega (arith, length-append xs (c ∷ c_rest)))));
      }
      | inr later ↦
          let f = find_by c c_rest xs rest in
          record { token = x ∷ f.token; skipped = f.skipped; found = rw later (rw f.found refl) }
    ]

-- Three texts that stand in `s` one behind the other, and what is between the last two.
pub record Contains (first second third s page : Text) : Type 0 where
  pub before : Text
  pub apart : Text
  pub rest : Text
  pub whole : s ≡ before ++ (first ++ (apart ++ (second ++ (page ++ (third ++ rest)))))

-- Such a place where each of the three texts comes as early as it can behind the one before.
pub record IsEarliest (first second third s page : Text) : Type 0 where
  pub place : Contains first second third s page
  pub first_there : find first place.before ≡ none
  pub second_there : find second place.apart ≡ none
  pub third_there : find third page ≡ none

-- The result of a search for the three: what is between the last two at their earliest place, and -1 just
-- where they do not stand in the text like that.
pub record Finds (first second third s : Text) (result : Option Text) : Type 0 where
  pub earliest : (page : Text) → result ≡ some page → IsEarliest first second third s page
  pub missing : result ≡ none → (page : Text) → ¬ Contains first second third s page

module _ (a b c : ℕ) (a_rest b_rest c_rest : Text) where
  between-found :
      (s page : Text)
      → between (a ∷ a_rest) (b ∷ b_rest) (c ∷ c_rest) s ≡ some page
      → IsEarliest (a ∷ a_rest) (b ∷ b_rest) (c ∷ c_rest) s page
  unfolding between
  between-found s page e = elim (Option-cases (find (a ∷ a_rest) s)) [
    | inl n ↦ absurd (ground (arith, rw n at e))
    | inr ((t1, s1), e1) ↦ elim (Option-cases (find (b ∷ b_rest) s1)) [
      | inl n ↦ absurd (ground (arith, rw (e1, n) at e))
      | inr ((t2, s2), e2) ↦ elim (Option-cases (find (c ∷ c_rest) s2)) [
        | inl n ↦ absurd (ground (arith, rw (e1, e2, n) at e))
        | inr ((t3, s3), e3) ↦
            let same = some-inj (rw (e1, e2, e3) at e) in
            let f1 = find-first a a_rest s t1 s1 e1 in
            let f2 = find-first b b_rest s1 t2 s2 e2 in
            let f3 = find-first c c_rest s2 t3 s3 e3 in
            subst (IsEarliest (a ∷ a_rest) (b ∷ b_rest) (c ∷ c_rest) s) same (record {
              place = record {
                before = t1;
                apart = t2;
                rest = s3;
                whole =
                    f1.whole
                    ∙ ap (λ r. t1 ++ ((a ∷ a_rest) ++ r))
                        (f2.whole ∙ ap (λ r. t2 ++ ((b ∷ b_rest) ++ r)) f3.whole);
              };
              first_there = f1.first;
              second_there = f2.first;
              third_there = f3.first;
            })
      ]
    ]
  ]

  between-ne-none :
      (s page : Text)
      → Contains (a ∷ a_rest) (b ∷ b_rest) (c ∷ c_rest) s page
      → between (a ∷ a_rest) (b ∷ b_rest) (c ∷ c_rest) s ≢ none
  unfolding between
  between-ne-none s page k e =
      let f1 =
        find_by a a_rest k.before
          (k.apart ++ ((b ∷ b_rest) ++ (page ++ ((c ∷ c_rest) ++ k.rest)))) in
      let f2 = find_by b b_rest (f1.skipped ++ k.apart) (page ++ ((c ∷ c_rest) ++ k.rest)) in
      let f3 = find_by c c_rest (f2.skipped ++ page) k.rest in
      let e1 = ap (find (a ∷ a_rest)) k.whole ∙ f1.found in
      let e2 =
        ap (find (b ∷ b_rest)) (
          sym
            (append_assoc f1.skipped k.apart ((b ∷ b_rest) ++ (page ++ ((c ∷ c_rest) ++ k.rest)))))
        ∙ f2.found in
      let e3 =
        ap (find (c ∷ c_rest)) (sym (append_assoc f2.skipped page ((c ∷ c_rest) ++ k.rest)))
        ∙ f3.found in
      ground (arith, rw (e1, e2, e3) at e)

  between-Finds :
      (s : Text)
      → Finds
          (a ∷ a_rest)
          (b ∷ b_rest)
          (c ∷ c_rest)
          s
          (between (a ∷ a_rest) (b ∷ b_rest) (c ∷ c_rest) s)
  between-Finds s = record {
    earliest = λ page e. between-found s page e;
    missing = λ e page k. between-ne-none s page k e;
  }

-- `GetQueryPage` returns -1 just when "GET ", "/" and " HTTP" do not stand in the request in this order;
-- otherwise it copies what stands between the first "/" behind the
-- first "GET " and the first " HTTP" behind that "/". `GetURL` does the same with
-- "http:/", "/" and "/".
pub get_query_page-Finds :
    (s : Text)
    → Finds (71 ∷ 69 ∷ 84 ∷ 32 ∷ []) (47 ∷ []) (32 ∷ 72 ∷ 84 ∷ 84 ∷ 80 ∷ []) s (get_query_page s)
      × Finds (104 ∷ 116 ∷ 116 ∷ 112 ∷ 58 ∷ 47 ∷ []) (47 ∷ []) (47 ∷ []) s (get_url s)
unfolding get_query_page get_url
get_query_page-Finds s = (
  between-Finds 71 47 32 (69 ∷ 84 ∷ 32 ∷ []) [] (72 ∷ 84 ∷ 84 ∷ 80 ∷ []) s,
  between-Finds 104 47 47 (116 ∷ 116 ∷ 112 ∷ 58 ∷ 47 ∷ []) [] [] s,
)
