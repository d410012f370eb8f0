-- ===== src/NpLog/Byte.antt =====
-- One byte in the loop of `LogDump` of src/NPLog.cpp.
use thunder_chat.Prelude.{
  ℕ, suc, ◌+◌, ◌-◌, ◌*◌, ◌^◌, ◌≤◌, ◌<◌, ◌≡◌, refl, ap, sym, ◌∙◌, subst, some, Option, List, [], ◌∷◌,
  ◌++◌, true, false, ◌==◌, length, take, drop, length-append, append_assoc, arith,
  drop-append_length, take-append_length,
}
use thunder_chat.Properties.{Text}
use thunder_chat.NpLog.LogDump.{end_dump, dump_loop}
use thunder_chat.NpLog.Dump.{opened, row, rows, rows-nil}
use thunder_chat.NpLog.Lines.{
  begun, start_line, add_byte, end_row, end_dump-row, rows-full, rows-short,
}

-- The loop at the byte `c`, in a line that holds the bytes of `chunk` so far.
pub record AtByte (fuel : ℕ) (block before chunk : List ℕ) (c : ℕ) (rest : List ℕ) : Type 0 where
  pub k : ℕ
  pub at : block ≡ before ++ (chunk ++ (c ∷ rest))
  pub aligned : length before ≡ 16 * k
  pub room : length chunk ≤ 15
  pub small : length block ≤ 10 ^ 8
  pub enough : length (chunk ++ (c ∷ rest)) ≤ fuel

-- What the loop does behind a byte.
unfoldable pub continue : List ℕ → List ℕ → ℕ → ℕ → Text → List Text → Option (List Text)
continue block rest idx col line out = elim rest as (λ _. Option (List Text)) [
  | [] ↦ end_dump block col line out
  | d ∷ ds ↦ dump_loop block rest idx col line out
]

module _ (fuel : ℕ) (block before chunk : List ℕ) (c : ℕ) (rest : List ℕ)
    (h : AtByte (suc fuel) block before chunk c rest) where
  abbrev with_c : List ℕ
  with_c = chunk ++ (c ∷ [])

  with_c_rest : with_c ++ rest ≡ chunk ++ (c ∷ rest)
  with_c_rest = append_assoc chunk (c ∷ []) rest

  pub whole : length block ≡ length before + length chunk + suc (length rest)
  whole = omega (
    arith,
    ap length h.at,
    length-append before (chunk ++ (c ∷ rest)),
    length-append chunk (c ∷ rest),
  )

  pub below : length before < 10 ^ 8
  below = omega (arith, whole, h.small)

  pub text_bytes :
      length chunk ≡ 15 → take 16 (drop (length before + length chunk - 15) block) ≡ with_c
  text_bytes full =
      ap (λ i. take 16 (drop i block)) start
      ∙ ap (λ b. take 16 (drop (length before) b)) (h.at ∙ ap (before ++◌) (sym with_c_rest))
      ∙ ap (take 16) (drop-append_length before (with_c ++ rest))
      ∙ ap (λ n. take n (with_c ++ rest)) sixteen
      ∙ take-append_length with_c rest
    where
      start : length before + length chunk - 15 ≡ length before
      start = omega (arith, full)

      sixteen : 16 ≡ length with_c
      sixteen = omega (arith, length-append chunk (c ∷ []), full)

  pub next_row :
      (d : ℕ) (ds : List ℕ)
      → rest ≡ d ∷ ds
      → length chunk ≡ 15
      → AtByte fuel block (before ++ with_c) [] d ds
  next_row d ds more full = record {
    k = suc h.k;
    at =
        h.at
        ∙ ap (before ++◌) (sym with_c_rest)
        ∙ sym (append_assoc before with_c rest)
        ∙ ap ((before ++ with_c) ++◌) more;
    aligned =
        omega (arith, h.aligned, length-append before with_c, length-append chunk (c ∷ []), full);
    room = omega arith;
    small = h.small;
    enough = omega (arith, h.enough, length-append chunk (c ∷ rest), ap length more, full);
  }

  pub same_row :
      (d : ℕ) (ds : List ℕ)
      → rest ≡ d ∷ ds
      → length chunk < 15
      → AtByte (suc fuel) block before with_c d ds
  same_row d ds more short = record {
    k = h.k;
    at = h.at ∙ ap (before ++◌) (sym with_c_rest ∙ ap (with_c ++◌) more);
    aligned = h.aligned;
    room = omega (arith, length-append chunk (c ∷ []), short);
    small = h.small;
    enough = subst (λ t. length t ≤ suc fuel) (sym with_c_rest ∙ ap (with_c ++◌) more) h.enough;
  }

  pub step_full :
      (out : List Text)
      → length chunk ≡ 15
      → dump_loop block
          (c ∷ rest)
          (length before + length chunk)
          (length chunk)
          (begun (length before) chunk)
          out
        ≡ continue block rest
            (suc (length before + length chunk))
            0
            []
            (out ++ (row (length before) with_c ∷ []))
  unfolding dump_loop continue
  step_full out full =
      let last : (length chunk == 15) ≡ true = ground (arith, full) in
      rw (start_line (length before) chunk below) (
        rw (add_byte (length before) chunk c below h.room) (
          rw last (
            rw (text_bytes full) (
              rw
                (end_row (length before) with_c below
                  (omega (arith, length-append chunk (c ∷ []), full)))
                refl))))

  pub step_part :
      (out : List Text)
      → length chunk < 15
      → dump_loop block
          (c ∷ rest)
          (length before + length chunk)
          (length chunk)
          (begun (length before) chunk)
          out
        ≡ continue block rest
            (suc (length before + length chunk))
            (suc (length chunk))
            (opened (length before) with_c)
            out
  unfolding dump_loop continue
  step_part out short =
      let other : (length chunk == 15) ≡ false = ground (arith, short) in
      rw (start_line (length before) chunk below)
        (rw (add_byte (length before) chunk c below h.room) (rw other refl))

  -- The lines still to come, when a line is complete.
  pub rows_full :
      length chunk ≡ 15
      → rows (suc fuel) (length before) (chunk ++ (c ∷ rest))
        ≡ row (length before) with_c ∷ rows fuel (length before + 16) rest
  rows_full full =
      ap (rows (suc fuel) (length before)) (sym with_c_rest)
      ∙ rows-full fuel (length before) with_c rest
          (omega (arith, length-append chunk (c ∷ []), full))

  only_c : rest ≡ [] → chunk ++ (c ∷ rest) ≡ with_c
  only_c none_left = ap (λ r. chunk ++ (c ∷ r)) none_left

  pub ends_full :
      (out : List Text)
      → rest ≡ []
      → length chunk ≡ 15
      → dump_loop block
          (c ∷ rest)
          (length before + length chunk)
          (length chunk)
          (begun (length before) chunk)
          out
        ≡ some (out ++ rows (suc fuel) (length before) (chunk ++ (c ∷ rest)))
  unfolding continue end_dump
  ends_full out none_left full =
      step_full out full
      ∙ ap
          (λ r.
            continue block r (suc (length before + length chunk)) 0 []
              (out ++ (row (length before) with_c ∷ [])))
          none_left
      ∙ ap (λ l. some (out ++ l))
          (sym (
            rows_full full
            ∙ rw none_left
                (ap (row (length before) with_c ∷◌) (rows-nil fuel (length before + 16)))))

  pub ends_part :
      (out : List Text)
      → rest ≡ []
      → length chunk < 15
      → dump_loop block
          (c ∷ rest)
          (length before + length chunk)
          (length chunk)
          (begun (length before) chunk)
          out
        ≡ some (out ++ rows (suc fuel) (length before) (chunk ++ (c ∷ rest)))
  unfolding continue
  ends_part out none_left short =
      step_part out short
      ∙ rw none_left (
          end_dump-row block before with_c h.k (length chunk) out
            (h.at ∙ ap (before ++◌) (only_c none_left)) h.aligned below
            (omega (arith, length-append chunk (c ∷ []))) short)
      ∙ ap (λ l. some (out ++ l))
          (sym (
            ap (rows (suc fuel) (length before)) (only_c none_left)
            ∙ rows-short fuel (length before) with_c (omega (arith, length-append chunk (c ∷ [])))
                (omega (arith, length-append chunk (c ∷ []), short))))
