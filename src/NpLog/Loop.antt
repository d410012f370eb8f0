-- ===== src/NpLog/Loop.antt =====
-- What `LogDump` of src/NPLog.cpp writes for a block.
use thunder_chat.Prelude.{
  ℕ, zero, suc, ◌+◌, ◌^◌, ◌≤◌, ◌<◌, ◌≡◌, refl, ap, sym, ◌∙◌, some, List, [], ◌∷◌, ◌++◌, ◌==◌,
  length, length-append, append_assoc, arith, Bool-cases, inl, inr,
}
use thunder_chat.Properties.{Text}
use thunder_chat.NpLog.LogDump.{dump_loop, log_dump}
use thunder_chat.NpLog.Dump.{row, rows}
use thunder_chat.NpLog.Lines.{begun, begun-append}
use thunder_chat.NpLog.Byte.{
  AtByte, continue, next_row, same_row, step_full, step_part, rows_full, ends_full, ends_part,
}

dump_loop-rows :
    (fuel : ℕ) (block before chunk : List ℕ) (c : ℕ) (rest : List ℕ) (out : List Text)
    → AtByte fuel block before chunk c rest
    → dump_loop block
        (c ∷ rest)
        (length before + length chunk)
        (length chunk)
        (begun (length before) chunk)
        out
      ≡ some (out ++ rows fuel (length before) (chunk ++ (c ∷ rest)))
unfolding continue begun
dump_loop-rows zero block before chunk c rest out h =
    absurd (omega (arith, h.enough, length-append chunk (c ∷ rest)))
dump_loop-rows (suc fuel) block before chunk c [] out h = elim (Bool-cases (length chunk == 15)) [
  | inl last ↦ ends_full fuel block before chunk c [] h out refl (ground (arith, last))
  | inr other ↦ ends_part fuel block before chunk c [] h out refl (ground (arith, other, h.room))
]
dump_loop-rows (suc fuel) block before chunk c (d ∷ ds) out h =
    elim (Bool-cases (length chunk == 15)) [
      | inl last ↦
          let full : length chunk ≡ 15 = ground (arith, last) in
          by_next_row full (
            dump_loop-rows fuel block (before ++ (chunk ++ (c ∷ []))) [] d ds
              (out ++ (row (length before) (chunk ++ (c ∷ [])) ∷ []))
              (next_row fuel block before chunk c (d ∷ ds) h d ds refl full))
      | inr other ↦
          let short : length chunk < 15 = ground (arith, other, h.room) in
          by_same_row short (
            dump_loop-rows (suc fuel) block before (chunk ++ (c ∷ [])) d ds out
              (same_row fuel block before chunk c (d ∷ ds) h d ds refl short))
    ]
  where
    chunk_c : List ℕ
    chunk_c = chunk ++ (c ∷ [])

    by_next_row :
        length chunk ≡ 15
        → dump_loop block
            (d ∷ ds)
            (length (before ++ chunk_c) + 0)
            0
            []
            (out ++ (row (length before) chunk_c ∷ []))
          ≡ some (
              (out ++ (row (length before) chunk_c ∷ []))
              ++ rows fuel (length (before ++ chunk_c)) (d ∷ ds))
        → dump_loop block
            (c ∷ d ∷ ds)
            (length before + length chunk)
            (length chunk)
            (begun (length before) chunk)
            out
          ≡ some (out ++ rows (suc fuel) (length before) (chunk ++ (c ∷ d ∷ ds)))
    by_next_row full later =
        step_full fuel block before chunk c (d ∷ ds) h out full
        ∙ ap (λ i. dump_loop block (d ∷ ds) i 0 [] (out ++ (row (length before) chunk_c ∷ [])))
            next_idx
        ∙ later
        ∙ ap some (
            append_assoc out (row (length before) chunk_c ∷ [])
              (rows fuel (length (before ++ chunk_c)) (d ∷ ds)))
        ∙ ap (λ b. some (out ++ (row (length before) chunk_c ∷ rows fuel b (d ∷ ds)))) next_base
        ∙ ap (λ l. some (out ++ l)) (sym (rows_full fuel block before chunk c (d ∷ ds) h full))
      where
        next_base : length (before ++ chunk_c) ≡ length before + 16
        next_base = omega (arith, length-append before chunk_c, length-append chunk (c ∷ []), full)

        next_idx : suc (length before + length chunk) ≡ length (before ++ chunk_c) + 0
        next_idx = omega (arith, next_base, full)

    by_same_row :
        length chunk < 15
        → dump_loop block
            (d ∷ ds)
            (length before + length chunk_c)
            (length chunk_c)
            (begun (length before) chunk_c)
            out
          ≡ some (out ++ rows (suc fuel) (length before) (chunk_c ++ (d ∷ ds)))
        → dump_loop block
            (c ∷ d ∷ ds)
            (length before + length chunk)
            (length chunk)
            (begun (length before) chunk)
            out
          ≡ some (out ++ rows (suc fuel) (length before) (chunk ++ (c ∷ d ∷ ds)))
    by_same_row short later =
        step_part fuel block before chunk c (d ∷ ds) h out short
        ∙ ap
            (λ l.
              dump_loop block (d ∷ ds) (suc (length before + length chunk)) (suc (length chunk)) l
                out)
            (sym (begun-append (length before) chunk c))
        ∙ ap
            (λ n.
              dump_loop block (d ∷ ds) n (suc (length chunk)) (begun (length before) chunk_c) out)
            next_idx
        ∙ ap
            (λ n.
              dump_loop block (d ∷ ds) (length before + length chunk_c) n
                (begun (length before) chunk_c) out)
            next_col
        ∙ later
        ∙ ap (λ t. some (out ++ rows (suc fuel) (length before) t))
            (append_assoc chunk (c ∷ []) (d ∷ ds))
      where
        next_col : suc (length chunk) ≡ length chunk_c
        next_col = omega (arith, length-append chunk (c ∷ []))

        next_idx : suc (length before + length chunk) ≡ length before + length chunk_c
        next_idx = omega (arith, next_col)

-- `LogDump` of a block of up to 10^8 bytes writes, without leaving the array of a line, one line for each
-- sixteen bytes and one for those that are left over: the offset, the bytes in hexadecimal, and the bytes
-- as text.
pub log_dump-rows :
    (block : List ℕ) → length block ≤ 10 ^ 8 → log_dump block ≡ some (rows (length block) 0 block)
unfolding log_dump dump_loop rows begun
log_dump-rows [] small = refl
log_dump-rows (c ∷ rest) small =
    dump_loop-rows (suc (length rest)) (c ∷ rest) [] [] c rest [] (record {
      k = 0;
      at = refl;
      aligned = refl;
      room = omega arith;
      small = small;
      enough = omega arith;
    })
