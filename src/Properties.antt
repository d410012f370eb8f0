-- ===== src/Properties.antt =====
-- src/Properties.cpp, with LTrim and RTrim of src/NPUtil.cpp: the settings read from a file. A string is
-- the list of its characters without the final zero; `none` is a read outside an array.
pub mod Trim
pub mod Lines
use thunder_chat.Prelude.{
  ℕ, zero, suc, ◌+◌, ◌≤◌, ◌<◌, Option, none, some, List, [], ◌∷◌, ◌++◌, Bool, true, false, ◌&&◌,
  ◌||◌, ◌==◌, ltb, leb, if◌then◌else◌, ◌>>=◌, length, take,
}

abbrev pub Text : Type 0
Text = List ℕ

abbrev pub max_line_size : ℕ
max_line_size = 1024

-- MAX_KEY_SIZE and MAX_VALUE_SIZE
abbrev pub max_text_size : ℕ
max_text_size = 512

-- `isspace`
abbrev pub is_space : ℕ → Bool
is_space c = (c == 32) || (leb 9 c && leb c 13)

-- `LTrim`
unfoldable pub ltrim : Text → Text
ltrim [] = []
ltrim (c ∷ cs) = let rest = ltrim cs in if is_space c then rest else c ∷ cs

-- The loop of `RTrim` at index `i`: `kept` is where the zero will go, behind `tmp`.
unfoldable pub trim_point : Text → ℕ → ℕ → ℕ
trim_point [] i kept = kept
trim_point (c ∷ cs) i kept = trim_point cs (i + 1) (if is_space c then kept else i + 1)

-- `RTrim`
unfoldable pub rtrim : Text → Text
rtrim s = take (trim_point s 0 0) s

-- `strchr(line, '=')`: what stands before and behind the first one.
unfoldable pub split_at_equals : Text → Option (Text × Text)
split_at_equals [] = none
split_at_equals (c ∷ cs) =
    let more = split_at_equals cs in
    if c == 61 then some ([], cs) else (more >>= λ (name, value). some (c ∷ name, value))

-- `strncpy` into an array of `MAX_KEY_SIZE` characters, read as a string afterwards: a text that fills the
-- array is not ended in it.
unfoldable pub copy_text : Text → Option Text
copy_text s = if ltb (length s) max_text_size then some s else none

abbrev pub Entry : Type 0
Entry = Text × Text

-- Whether two strings are the same.
unfoldable pub same_text : Text → Text → Bool
same_text [] [] = true
same_text [] (d ∷ ds) = false
same_text (c ∷ cs) [] = false
same_text (c ∷ cs) (d ∷ ds) = (c == d) && same_text cs ds

-- `m_mapProperties[name] = value`
unfoldable pub assign : List Entry → Text → Text → List Entry
assign [] name value = (name, value) ∷ []
assign ((key, old) ∷ entries) name value =
    let rest = assign entries name value in
    if same_text key name then (key, value) ∷ entries else (key, old) ∷ rest

is_empty : Text → Bool
is_empty [] = true
is_empty (c ∷ cs) = false

-- `AddMap(char *)`
unfoldable pub add_map : List Entry → Text → Option (List Entry)
unfolding is_empty
add_map entries line = elim (split_at_equals line) [
  | none ↦ some entries
  | some (name, value) ↦ copy_text name >>= λ key. copy_text value >>= λ text.
      if is_empty key || is_empty text
      then some entries
      else some (assign entries (rtrim (ltrim key)) (rtrim (ltrim text)))
]

-- Whether `Load` passes over a line.
unfoldable pub is_skipped : Text → Bool
is_skipped [] = true
is_skipped (c ∷ cs) = (c == 10) || (c == 35)

-- The loop of `Load` over the lines of the file; `getline` fails on a line that does not fit, and the loop
-- ends.
unfoldable pub load : List Entry → List Text → Option (List Entry)
load entries [] = some entries
load entries (line ∷ lines) =
    if leb max_line_size (length line)
    then some entries
    else if is_skipped line
    then load entries lines
    else (add_map entries line >>= λ more. load more lines)

-- `GetProperty`
unfoldable pub get_property : List Entry → Text → Text
get_property [] name = []
get_property ((key, value) ∷ entries) name =
    let rest = get_property entries name in if same_text key name then value else rest

-- `SetProperty`: `insert` keeps a value that is there.
unfoldable pub set_property : List Entry → Text → Text → List Entry
set_property [] name value = (name, value) ∷ []
set_property ((key, old) ∷ entries) name value =
    let rest = set_property entries name value in
    if same_text key name then (key, old) ∷ entries else (key, old) ∷ rest
