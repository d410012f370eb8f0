-- ===== src/NpLog/Dump.antt =====
-- What `LogDump` of src/NPLog.cpp writes.
use thunder_chat.Prelude.{
  ℕ, zero, suc, ◌+◌, ◌-◌, ◌*◌, ◌^◌, ◌≤◌, ◌<◌, ◌≡◌, refl, ap, sym, ◌∙◌, some, List, [], ◌∷◌, ◌++◌,
  ◌==◌, if◌then◌else◌, leb, length, take, drop, replicate, length-append, append_assoc, append-nil,
  arith, Bool-cases, inl, inr,
}
use thunder_chat.Properties.{Text}
use thunder_chat.Formats.{zero_padded}
use thunder_chat.Formats.Numbers.{length-zero_padded}
use thunder_chat.NpLog.LogDump.{append_line, hex_of, offset_of, until_zero, pad_loop}

-- The bytes of a line, each as two digits and a blank.
unfoldable pub hexes : List ℕ → Text
hexes [] = []
hexes (c ∷ cs) = hex_of c ++ hexes cs

-- The start of a line: its offset and some bytes.
abbrev pub opened : ℕ → List ℕ → Text
opened base chunk = offset_of base ++ hexes chunk

-- Blanks.
abbrev pub blanks : ℕ → Text
blanks n = replicate n 32

-- A line of the dump, for the bytes from `base` on: the offset, the bytes in hexadecimal with blanks for
-- the missing ones, and the bytes as text up to the first zero.
abbrev pub row : ℕ → List ℕ → Text
row base chunk =
    opened base chunk
    ++ (replicate (3 * (16 - length chunk) + (if leb (length chunk) 7 then 1 else 0)) 32
        ++ (32 ∷ until_zero chunk))

-- The lines for the bytes from `base` on, sixteen in each; as many as `fuel` at most.
unfoldable pub rows : ℕ → ℕ → List ℕ → List Text
rows zero base bytes = []
rows (suc fuel) base [] = []
rows (suc fuel) base (c ∷ cs) =
    row base (take 16 (c ∷ cs)) ∷ rows fuel (base + 16) (drop 16 (c ∷ cs))

pub rows-nil : (fuel base : ℕ) → rows fuel base [] ≡ []
unfolding rows
rows-nil zero base = refl
rows-nil (suc fuel) base = refl

pub rows-next :
    (fuel base : ℕ) (bytes : List ℕ)
    → 0 < length bytes
    → rows (suc fuel) base bytes ≡ row base (take 16 bytes) ∷ rows fuel (base + 16) (drop 16 bytes)
unfolding rows
rows-next fuel base [] h = absurd (omega (arith, h))
rows-next fuel base (c ∷ cs) h = refl

pub append_line-fits :
    (line b : Text) → length line + length b < 81 → append_line line b ≡ some (line ++ b)
unfolding append_line
append_line-fits line b h = ground (arith, h)

pub hexes-append : (xs ys : List ℕ) → hexes (xs ++ ys) ≡ hexes xs ++ hexes ys
unfolding hexes
hexes-append [] ys = refl
hexes-append (x ∷ xs) ys =
    ap (hex_of x ++◌) (hexes-append xs ys) ∙ sym (append_assoc (hex_of x) (hexes xs) (hexes ys))

pub length-hexes : (xs : List ℕ) → length (hexes xs) ≡ 3 * length xs
unfolding hexes
length-hexes [] = refl
length-hexes (x ∷ xs) = omega (arith, length-hexes xs)

pub length-until_zero : (xs : List ℕ) → length (until_zero xs) ≤ length xs
unfolding until_zero
length-until_zero [] = omega arith
length-until_zero (c ∷ cs) = ground (arith, length-until_zero cs)

pub length-opened :
    (base : ℕ) (chunk : List ℕ) → base < 10 ^ 8 → length (opened base chunk) ≤ 15 + 3 * length chunk
length-opened base chunk small = omega (
  arith,
  length-append (offset_of base) (hexes chunk),
  length-append (zero_padded 5 base) (blanks 6),
  length-zero_padded 5 7 base small (omega arith),
  length-hexes chunk,
)

blanks-add : (m n : ℕ) → blanks (m + n) ≡ blanks m ++ blanks n
blanks-add zero n = ap blanks (omega arith)
blanks-add (suc m) n = ap blanks moved ∙ ap (◌∷◌ 32) (blanks-add m n)
  where
    moved : suc m + n ≡ suc (m + n)
    moved = omega arith

blanks-join :
    (line : Text) (k n m : ℕ) → m ≡ k + n → (line ++ blanks k) ++ blanks n ≡ line ++ blanks m
blanks-join line k n m e =
    append_assoc line (blanks k) (blanks n)
    ∙ ap (line ++◌) (sym (blanks-add k n) ∙ ap (λ j. blanks j) (sym e))

pub pad_loop-fits :
    (left col : ℕ) (line : Text)
    → left + col ≡ 16
    → length line + 3 * left + (if leb col 7 then 1 else 0) < 81
    → pad_loop left col line ≡ some (line ++ blanks (3 * left + (if leb col 7 then 1 else 0)))
unfolding pad_loop
pad_loop-fits zero col line full room =
    ap some (sym (append-nil line) ∙ ap (λ n. line ++ blanks n) none_left)
  where
    none_left : 0 ≡ 3 * 0 + (if leb col 7 then 1 else 0)
    none_left = ground (arith, full)
pad_loop-fits (suc left) col line full room =
    rw (append_line-fits line (blanks 3) (ground (arith, room))) (elim (Bool-cases (col == 7)) [
      | inl seven ↦
          rw
            (
              seven,
              append_line-fits (line ++ blanks 3) (blanks 1)
                  (ground (arith, seven, room, length-append line (blanks 3))),
            )
            (pad_loop-fits left (suc col) ((line ++ blanks 3) ++ blanks 1) (omega (arith, full)) (
                ground (
                  arith,
                  seven,
                  room,
                  length-append (line ++ blanks 3) (blanks 1),
                  length-append line (blanks 3),
                ))
              ∙ ap some (
                  ap (λ t. t ++ replicate (3 * left + (if leb (suc col) 7 then 1 else 0)) 32)
                    (blanks-join line 3 1 4 refl)
                  ∙ blanks-join line 4 (3 * left + (if leb (suc col) 7 then 1 else 0))
                      (3 * suc left + (if leb col 7 then 1 else 0)) (ground (arith, seven))))
      | inr other ↦ rw other (
          pad_loop-fits left (suc col) (line ++ blanks 3) (omega (arith, full))
            (ground (arith, other, room, length-append line (blanks 3)))
          ∙ ap some (
              blanks-join line 3 (3 * left + (if leb (suc col) 7 then 1 else 0))
                (3 * suc left + (if leb col 7 then 1 else 0)) (ground (arith, other))))
    ])
