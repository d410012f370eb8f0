-- ===== src/NpLog/Lines.antt =====
-- The steps of the loop of `LogDump` of src/NPLog.cpp, against the lines that a dump consists of.
use thunder_chat.Prelude.{
  ℕ, suc, ◌+◌, ◌-◌, ◌*◌, ◌%◌, ◌^◌, ◌≤◌, ◌<◌, ◌≡◌, refl, ap, sym, ◌∙◌, some, List, [], ◌∷◌, ◌++◌,
  false, ◌==◌, if◌then◌else◌, leb, length, take, drop, length-append, length-replicate,
  append_assoc, append-nil, arith, drop-append_length, take-append_length, take-length, length-drop,
  length-zero,
}
use thunder_chat.Properties.{Text}
use thunder_chat.NpLog.LogDump.{append_line, hex_of, offset_of, until_zero, end_dump}
use thunder_chat.NpLog.Dump.{
  hexes, opened, blanks, row, rows, rows-nil, rows-next, append_line-fits, hexes-append,
  length-until_zero, length-opened, pad_loop-fits,
}

-- What `pchLine` holds behind some bytes of a line.
unfoldable pub begun : ℕ → List ℕ → Text
begun base [] = []
begun base (x ∷ xs) = opened base (x ∷ xs)

pub start_line :
    (base : ℕ) (bytes : List ℕ)
    → base < 10 ^ 8
    → (if length bytes == 0
        then append_line (begun base bytes) (offset_of (base + length bytes))
        else some (begun base bytes))
      ≡ some (opened base bytes)
unfolding begun hexes
start_line base [] small =
    append_line-fits [] (offset_of (base + 0)) (
      omega (
        arith,
        length-opened (base + 0) [] (omega (arith, small)),
        length-append (offset_of (base + 0)) [],
      ))
    ∙ ap some (sym (append-nil (offset_of (base + 0))) ∙ ap (λ b. offset_of b ++ []) at_base)
  where
    at_base : base + 0 ≡ base
    at_base = omega arith
start_line base (x ∷ xs) small = rw not_zero refl
  where
    not_zero : (suc (length xs) == 0) ≡ false
    not_zero = ground arith

pub add_byte :
    (base : ℕ) (bytes : List ℕ) (c : ℕ)
    → base < 10 ^ 8
    → length bytes ≤ 15
    → append_line (opened base bytes) (hex_of c) ≡ some (opened base (bytes ++ (c ∷ [])))
unfolding hexes
add_byte base bytes c small room =
    append_line-fits (opened base bytes) (hex_of c)
      (omega (arith, length-opened base bytes small, room))
    ∙ ap some (
        append_assoc (offset_of base) (hexes bytes) (hex_of c)
        ∙ ap (offset_of base ++◌) (sym (hexes-append bytes (c ∷ []))))

pub end_row :
    (base : ℕ) (chunk : List ℕ)
    → base < 10 ^ 8
    → length chunk ≡ 16
    → append_line (opened base chunk) (32 ∷ until_zero chunk) ≡ some (row base chunk)
end_row base chunk small full =
    append_line-fits (opened base chunk) (32 ∷ until_zero chunk)
      (omega (arith, length-opened base chunk small, length-until_zero chunk, full))
    ∙ ap (λ n. some (opened base chunk ++ (blanks n ++ (32 ∷ until_zero chunk)))) no_blanks
  where
    no_blanks : 0 ≡ 3 * (16 - length chunk) + (if leb (length chunk) 7 then 1 else 0)
    no_blanks = ground (arith, full)

pub end_dump-row :
    (block before chunk : List ℕ) (k n : ℕ) (out : List Text)
    → block ≡ before ++ chunk
    → length before ≡ 16 * k
    → length before < 10 ^ 8
    → length chunk ≡ suc n
    → n < 15
    → end_dump block (suc n) (opened (length before) chunk) out
      ≡ some (out ++ (row (length before) chunk ∷ []))
unfolding end_dump
end_dump-row block before chunk k n out at aligned small size room =
    rw
      (pad_loop-fits (16 - suc n) (suc n) (opened (length before) chunk) (omega (arith, room))
        (ground (arith, size, room, length-opened (length before) chunk small)))
      (rw last_bytes (rw fits (ap (λ t. some (out ++ (t ∷ []))) same)))
  where
    col_size : suc n ≡ length chunk
    col_size = sym size

    whole : length block ≡ length before + length chunk
    whole = ap length at ∙ length-append before chunk

    rest_size : length block % 16 ≡ length chunk
    rest_size = omega (arith, whole, aligned, size, room)

    start : length block - length chunk ≡ length before
    start = omega (arith, whole)

    last_bytes : take (length block % 16) (drop (length block - length block % 16) block) ≡ chunk
    last_bytes =
        ap (λ m. take m (drop (length block - m) block)) rest_size
        ∙ ap (λ j. take (length chunk) (drop j block)) start
        ∙ ap (λ b. take (length chunk) (drop (length before) b)) at
        ∙ ap (take (length chunk)) (drop-append_length before chunk)
        ∙ take-length chunk (length chunk) (omega arith)

    padded : Text
    padded = blanks (3 * (16 - suc n) + (if leb (suc n) 7 then 1 else 0))

    fits :
        append_line (opened (length before) chunk ++ padded) (32 ∷ until_zero chunk)
        ≡ some ((opened (length before) chunk ++ padded) ++ (32 ∷ until_zero chunk))
    fits = append_line-fits (opened (length before) chunk ++ padded) (32 ∷ until_zero chunk) (
        ground (
          arith,
          size,
          room,
          length-opened (length before) chunk small,
          length-until_zero chunk,
          length-append (opened (length before) chunk) padded,
          length-replicate {A = ℕ} (3 * (16 - suc n) + (if leb (suc n) 7 then 1 else 0)) 32,
        ))

    same :
        (opened (length before) chunk ++ padded) ++ (32 ∷ until_zero chunk)
        ≡ row (length before) chunk
    same =
        append_assoc (opened (length before) chunk) padded (32 ∷ until_zero chunk)
        ∙ ap
            (λ m.
              opened (length before) chunk
              ++ (blanks (3 * (16 - m) + (if leb m 7 then 1 else 0)) ++ (32 ∷ until_zero chunk)))
            col_size

pub begun-append :
    (base : ℕ) (bytes : List ℕ) (c : ℕ)
    → begun base (bytes ++ (c ∷ [])) ≡ opened base (bytes ++ (c ∷ []))
unfolding begun
begun-append base [] c = refl
begun-append base (x ∷ xs) c = refl

-- The first line of the rest, when `chunk` has its sixteen bytes, and when it has all there are.
pub rows-full :
    (fuel base : ℕ) (chunk rest : List ℕ)
    → length chunk ≡ 16
    → rows (suc fuel) base (chunk ++ rest) ≡ row base chunk ∷ rows fuel (base + 16) rest
rows-full fuel base chunk rest full =
    rows-next fuel base (chunk ++ rest) (omega (arith, length-append chunk rest, full))
    ∙ ap (λ n. row base (take n (chunk ++ rest)) ∷ rows fuel (base + 16) (drop n (chunk ++ rest)))
        (sym full)
    ∙ ap (λ t. row base t ∷ rows fuel (base + 16) (drop (length chunk) (chunk ++ rest)))
        (take-append_length chunk rest)
    ∙ ap (λ t. row base chunk ∷ rows fuel (base + 16) t) (drop-append_length chunk rest)

pub rows-short :
    (fuel base : ℕ) (chunk : List ℕ)
    → 0 < length chunk
    → length chunk ≤ 16
    → rows (suc fuel) base chunk ≡ row base chunk ∷ []
rows-short fuel base chunk some_there short =
    rows-next fuel base chunk some_there
    ∙ ap (λ t. row base t ∷ rows fuel (base + 16) (drop 16 chunk)) (take-length chunk 16 short)
    ∙ ap (λ t. row base chunk ∷ rows fuel (base + 16) t)
        (length-zero (drop 16 chunk) (omega (arith, length-drop 16 chunk, short)))
    ∙ ap (row base chunk ∷◌) (rows-nil fuel (base + 16))
