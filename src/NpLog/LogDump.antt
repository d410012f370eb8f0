-- ===== src/NpLog/LogDump.antt =====
-- `LogDump` of src/NPLog.cpp, which writes a block in hexadecimal; `none` is an overflow of `pchLine`.
use thunder_chat.Prelude.{
  ℕ, zero, suc, ◌+◌, ◌-◌, ◌/◌, ◌%◌, Option, none, some, List, [], ◌∷◌, ◌++◌, ◌==◌, if◌then◌else◌,
  ltb, ◌>>=◌, length, take, drop, replicate,
}
use thunder_chat.Properties.{Text}
use thunder_chat.Formats.{zero_padded, hex_digit}

-- The size of `pchLine`.
abbrev pub line_size : ℕ
line_size = 81

-- `strcat(pchLine, b)`
unfoldable pub append_line : Text → Text → Option Text
append_line line b = if ltb (length line + length b) line_size then some (line ++ b) else none

-- "%02X "
abbrev pub hex_of : ℕ → Text
hex_of c = hex_digit (c % 256 / 16) ∷ hex_digit (c % 16) ∷ 32 ∷ []

-- "\n%05d      "
abbrev pub offset_of : ℕ → Text
offset_of idx = 10 ∷ (zero_padded 5 idx ++ replicate 6 32)

-- What %s prints of an array.
unfoldable pub until_zero : List ℕ → Text
until_zero [] = []
until_zero (c ∷ cs) = let rest = until_zero cs in if c == 0 then [] else c ∷ rest

-- The blanks in place of the `left` bytes from column `col` on that the last line does not have.
unfoldable pub pad_loop : ℕ → ℕ → Text → Option Text
pad_loop zero col line = some line
pad_loop (suc left) col line = append_line line (32 ∷ 32 ∷ 32 ∷ []) >>= λ l.
    (if col == 7 then append_line l (32 ∷ []) else some l) >>= λ l2. pad_loop left (suc col) l2

-- What follows the last byte: `out` are the lines written.
unfoldable pub end_dump : List ℕ → ℕ → Text → List Text → Option (List Text)
end_dump block zero line out = some out
end_dump block (suc col) line out =
    let size = length block in
    pad_loop (16 - suc col) (suc col) line >>= λ l.
    append_line l (32 ∷ until_zero (take (size % 16) (drop (size - size % 16) block))) >>= λ l2.
    some (out ++ (l2 ∷ []))

-- The loop of `LogDump`, where `rest` is what `_pchData + idx` points at.
unfoldable pub dump_loop : List ℕ → List ℕ → ℕ → ℕ → Text → List Text → Option (List Text)
dump_loop block [] idx col line out = some out
dump_loop block (c ∷ rest) idx col line out =
    (if col == 0 then append_line line (offset_of idx) else some line) >>= λ l.
    append_line l (hex_of c) >>= λ l2.
    (if col == 15
      then (append_line l2 (32 ∷ until_zero (take 16 (drop (idx - 15) block))) >>= λ l3.
          some (0, ([], out ++ (l3 ∷ []))))
      else some (suc col, (l2, out)))
    >>= λ (col2, (l4, out2)). elim rest [
      | [] ↦ end_dump block col2 l4 out2
      | d ∷ ds ↦ dump_loop block rest (suc idx) col2 l4 out2
    ]

-- `LogDump`: the lines that it writes.
unfoldable pub log_dump : List ℕ → Option (List Text)
log_dump block = dump_loop block block 0 0 [] []
