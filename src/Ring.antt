-- ===== src/Ring.antt =====
-- Circular storage: what `n` cells hold from index `h` on, going round at `size`. The message queue
-- (src/CircularQueue.cpp) and the receive buffer (src/CircularBuff.cpp) both keep such a window.
use thunder_chat.Prelude.{
  le→leb, take-append_length, ℕ, zero, suc, ◌+◌, ◌-◌, ◌%◌, ◌≤◌, ◌<◌, ◌≡◌, refl, ap, ap₂, sym, ◌∙◌,
  List, [], ◌∷◌, ◌++◌, Option, none, some, arith, length, get_or, set, take, drop, length-set,
  get_or-set_self, get_or-set_ne, leb, if◌then◌else◌, ◌⊎◌, inl, inr, subst, append_assoc,
  length-append,
}
use native.Mathlib.Nat.{mod-add-mod, mod-eq_of_lt, mod-eq-sub-mod}
use native.Mathlib.Decide.{dec_lt}

module _ {ℓ} {A : Type ℓ} where
  -- `memcpy` reading `n` cells from index `i`; `none` is a read outside the array.
  abbrev pub load : List A → ℕ → ℕ → Option (List A)
  load buf i n = if leb (i + n) (length buf) then some (take n (drop i buf)) else none

  abbrev pub write_block : List A → ℕ → List A → List A
  write_block buf i [] = buf
  write_block buf i (x ∷ src) = write_block (set buf i x) (i + 1) src

  -- `memcpy` writing `src` at index `i`; `none` is a write outside the array.
  abbrev pub store : List A → ℕ → List A → Option (List A)
  store buf i src = if leb (i + length src) (length buf) then some (write_block buf i src) else none

  pub load_first : (xs ys : List A) → load (xs ++ ys) 0 (length xs) ≡ some xs
  load_first xs ys =
      rw (le→leb (0 + length xs) (length (xs ++ ys)) (omega (arith, length-append xs ys)))
        (ap some (take-append_length xs ys))

  pub length-write_block :
      (buf : List A) (i : ℕ) (src : List A) → length (write_block buf i src) ≡ length buf
  length-write_block buf i [] = refl
  length-write_block buf i (x ∷ src) =
      length-write_block (set buf i x) (i + 1) src ∙ length-set buf i x

  pub drop-get_or :
      (buf : List A) (i : ℕ) (d : A)
      → i < length buf
      → drop i buf ≡ get_or buf i d ∷ drop (suc i) buf
  drop-get_or [] i d h = absurd (omega arith)
  drop-get_or (x ∷ xs) zero d h = refl
  drop-get_or (x ∷ xs) (suc i) d h = drop-get_or xs i d (omega arith)

module _ {ℓ} {A : Type ℓ} (d : A) (buf : List A) (size : ℕ) where
  abbrev pub window : ℕ → ℕ → List A
  window h zero = []
  window h (suc n) = get_or buf h d ∷ window ((h + 1) % size) n

  pub length-window : (h n : ℕ) → length (window h n) ≡ n
  length-window h zero = refl
  length-window h (suc n) = ap suc (length-window ((h + 1) % size) n)

  pub window_split :
      (m n h k : ℕ) → h < size → k ≡ (h + m) % size → window h (m + n) ≡ window h m ++ window k n
  window_split zero n h k hh e =
      ap₂ window (sym (mod-eq_of_lt hh) ∙ ap (λ t. t % size) (omega arith) ∙ sym e) (omega arith)
  window_split (suc m) n h k hh e =
      ap (window h) (plus m n)
      ∙ ap (◌∷◌ (get_or buf h d)) (window_split m n ((h + 1) % size) k (omega arith) (e ∙ shift))
    where
      plus : (a b : ℕ) → suc a + b ≡ suc (a + b)
      plus a b = omega arith

      shift : (h + suc m) % size ≡ ((h + 1) % size + m) % size
      shift = rw mod-add-mod (ap (λ t. t % size) (omega arith))

  -- A window that does not go round is a block of the array.
  pub window_block : (n h : ℕ) → size ≤ length buf → h + n ≤ size → window h n ≡ take n (drop h buf)
  window_block zero h hs hh = refl
  window_block (suc zero) h hs hh = rw (drop-get_or buf h d (omega arith)) refl
  window_block (suc (suc n)) h hs hh = rw (drop-get_or buf h d (omega arith)) (
      ap (◌∷◌ (get_or buf h d)) (
        ap (λ t. window t (suc n)) (mod-eq_of_lt (omega arith) ∙ one h)
        ∙ window_block (suc n) (suc h) hs (omega arith)))
    where
      one : (a : ℕ) → a + 1 ≡ suc a
      one a = omega arith

  -- The oldest cell of a window that is not empty, and the rest.
  pub window_first :
      (n h : ℕ) → 0 < n → h < size → window h n ≡ get_or buf h d ∷ window ((h + 1) % size) (n - 1)
  window_first n h p hh =
      ap (window h) (omega arith) ∙ window_split 1 (n - 1) h ((h + 1) % size) hh refl

-- A sum of two indices goes round at most once.
pub mod_cases :
    (size h k : ℕ)
    → h < size
    → k ≤ size
    → ((h + k < size) × ((h + k) % size ≡ h + k))
      ⊎ ((size ≤ h + k) × ((h + k) % size ≡ h + k - size))
mod_cases size h k hh hk = elim (dec_lt (h + k) size) [
  | yes p ↦ inl (p, mod-eq_of_lt p)
  | no p ↦ inr (
    omega arith,
    mod-eq-sub-mod {n = h + k} {m = size} (omega arith)
        ∙ mod-eq_of_lt {n = h + k - size} {m = size} (omega arith),
  )
]

module _ {ℓ} {A : Type ℓ} (d : A) where
  get_or-write_block_before :
      (buf : List A) (i j : ℕ) (src : List A)
      → j < i
      → get_or (write_block buf i src) j d ≡ get_or buf j d
  get_or-write_block_before buf i j [] h = refl
  get_or-write_block_before buf i j (x ∷ src) h =
      get_or-write_block_before (set buf i x) (i + 1) j src (omega arith)
      ∙ get_or-set_ne buf x d (omega arith)

  get_or-write_block_after :
      (buf : List A) (i j : ℕ) (src : List A)
      → i + length src ≤ j
      → get_or (write_block buf i src) j d ≡ get_or buf j d
  get_or-write_block_after buf i j [] h = refl
  get_or-write_block_after buf i j (x ∷ src) h =
      get_or-write_block_after (set buf i x) (i + 1) j src (omega arith)
      ∙ get_or-set_ne buf x d (omega arith)

  -- What a block write leaves at its place.
  pub take-write_block :
      (buf : List A) (i : ℕ) (src : List A)
      → i + length src ≤ length buf
      → take (length src) (drop i (write_block buf i src)) ≡ src
  take-write_block buf i [] h = refl
  take-write_block buf i (x ∷ src) h =
      ap (take (suc (length src))) (drop-get_or written i d inside)
      ∙ ap₂ ◌∷◌ first (
          ap (λ t. take (length src) (drop t written)) (plus i)
          ∙ take-write_block (set buf i x) (i + 1) src (omega (arith, length-set buf i x)))
    where
      plus : (a : ℕ) → suc a ≡ a + 1
      plus a = omega arith

      written : List A
      written = write_block (set buf i x) (i + 1) src

      inside : i < length written
      inside = omega (arith, length-write_block (set buf i x) (i + 1) src, length-set buf i x)

      first : get_or written i d ≡ x
      first =
          get_or-write_block_before (set buf i x) (i + 1) i src (omega arith)
          ∙ get_or-set_self buf i x d (omega arith)

  window_agree :
      (buf buf' : List A) (size n h : ℕ)
      → h < size
      → ((j : ℕ) → j < n → get_or buf ((h + j) % size) d ≡ get_or buf' ((h + j) % size) d)
      → window d buf size h n ≡ window d buf' size h n
  window_agree buf buf' size zero h hh same = refl
  window_agree buf buf' size (suc n) h hh same =
      ap₂ ◌∷◌ (subst (λ t. get_or buf t d ≡ get_or buf' t d) start (same 0 (omega arith))) (
        window_agree buf buf' size n ((h + 1) % size) (omega arith) λ j lt.
          subst (λ t. get_or buf t d ≡ get_or buf' t d) (shift j) (same (j + 1) (omega arith)))
    where
      start : (h + 0) % size ≡ h
      start = ap (λ t. t % size) (omega arith) ∙ mod-eq_of_lt hh

      shift : (j : ℕ) → (h + (j + 1)) % size ≡ ((h + 1) % size + j) % size
      shift j = ap (λ t. t % size) (omega arith) ∙ sym (mod-add-mod (h + 1) size j)

  -- Writing a block just past a window extends the window by the block.
  pub window-write_block :
      (buf : List A) (size n h i : ℕ) (src : List A)
      → size ≤ length buf
      → h < size
      → n + length src ≤ size
      → i ≡ (h + n) % size
      → i + length src ≤ size
      → window d (write_block buf i src) size h (n + length src) ≡ window d buf size h n ++ src
  window-write_block buf size n h i src hs hh room e fits =
      window_split d written size n (length src) h i hh e
      ∙ ap₂ ◌++◌ (window_agree written buf size n h hh outside) (
          window_block d written size (length src) i (omega (arith, kept)) fits
          ∙ take-write_block buf i src (omega arith))
    where
      written : List A
      written = write_block buf i src

      kept : length written ≡ length buf
      kept = length-write_block buf i src

      apart : (j : ℕ) → j < n → ((h + j) % size < i) ⊎ (i + length src ≤ (h + j) % size)
      apart j lt =
          omega (arith, mod_cases size h j hh (omega arith), mod_cases size h n hh (omega arith))

      outside : (j : ℕ) → j < n → get_or written ((h + j) % size) d ≡ get_or buf ((h + j) % size) d
      outside j lt = elim (apart j lt) [
        | inl b ↦ get_or-write_block_before buf i ((h + j) % size) src b
        | inr a ↦ get_or-write_block_after buf i ((h + j) % size) src a
      ]

  set-append : (pre ys : List A) (y x : A) → set (pre ++ (y ∷ ys)) (length pre) x ≡ pre ++ (x ∷ ys)
  set-append [] ys y x = refl
  set-append (p ∷ pre) ys y x = ap (◌∷◌ p) (set-append pre ys y x)

  pub write_block-append :
      (pre ys src : List A)
      → length src ≤ length ys
      → write_block (pre ++ ys) (length pre) src ≡ pre ++ (src ++ drop (length src) ys)
  write_block-append pre ys [] h = refl
  write_block-append pre [] (x ∷ src) h = absurd (omega arith)
  write_block-append pre (y ∷ ys) (x ∷ src) h =
      ap₂ (λ l i. write_block l i src) (set-append pre ys y x ∙ sym (append_assoc pre (x ∷ []) ys))
        (omega (arith, length-append pre (x ∷ [])))
      ∙ write_block-append (pre ++ (x ∷ [])) ys src (omega arith)
      ∙ append_assoc pre (x ∷ []) (src ++ drop (length src) ys)

  -- A block written at the start of an array, and the rest of the array.
  pub write_block_start :
      (buf src : List A)
      → length src ≤ length buf
      → write_block buf 0 src ≡ src ++ drop (length src) buf
  write_block_start buf src h = write_block-append [] buf src h
