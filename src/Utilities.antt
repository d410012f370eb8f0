-- ===== src/Utilities.antt =====
-- src/NPUtil.cpp: the functions on texts. A string is the list of its characters without the final zero;
-- `none` is an access outside an array.
pub mod Replace
pub mod UrlDecode
pub mod PhoneNumber
pub mod Request
use thunder_chat.Prelude.{
  ℕ, zero, suc, ◌+◌, ◌-◌, ◌*◌, ◌%◌, Option, none, some, List, [], ◌∷◌, ◌++◌, Bool, true, false,
  ◌&&◌, ◌||◌, ◌==◌, leb, ltb, if◌then◌else◌, ◌>>=◌, length, take, drop, replicate,
}
use thunder_chat.Prelude.Int.{ℤ, pos, negsuc}
use thunder_chat.Ring.{store}
use thunder_chat.Properties.{Text}
use thunder_chat.ChatServer.Split.{is_prefix, find}

-- The size of `result` in `replaceAll`.
abbrev pub result_size : ℕ
result_size = 256

-- The loop of `replaceAll` over what `pOrigin` points at, where `out` has been written to `result`.
unfoldable pub replace_loop : ℕ → Text → Text → Text → Text → Option Text
replace_loop fuel olds news [] out = if ltb (length out) result_size then some out else none
replace_loop zero olds news (c ∷ cs) out = none
replace_loop (suc fuel) olds news (c ∷ cs) out =
    let replaced = replace_loop fuel olds news (drop (length olds) (c ∷ cs)) (out ++ news) in
    let copied = replace_loop fuel olds news cs (out ++ (c ∷ [])) in
    if is_prefix olds (c ∷ cs)
    then (if leb (length (out ++ news)) result_size then replaced else none)
    else (if ltb (length out) result_size then copied else none)

-- `replaceAll(s, olds, news)`, where the array of `s` has `size` characters: what `s` is then.
unfoldable pub replace_all : ℕ → Text → Text → Text → Option Text
replace_all size s [] news = some s
replace_all size s (o ∷ olds) news = replace_loop (length s) (o ∷ olds) news s [] >>= λ result.
    if ltb (length result) size then some result else none

abbrev pub is_digit : ℕ → Bool
is_digit c = leb 48 c && leb c 57

-- `isalnum`
abbrev pub is_alnum : ℕ → Bool
is_alnum c = is_digit c || (leb 65 c && leb c 90) || (leb 97 c && leb c 122)

-- The loop of `URLDecode` in each state, with `code` and what has been written to `dst`: the result, and
-- `dst`.
unfoldable pub decode_loop : Text → ℕ → ℕ → Text → ℤ × Text
decode_loop [] state code out = (pos 0, out)
decode_loop (c ∷ cs) zero code out =
    let escaped = decode_loop cs 1 code out in
    let copied = decode_loop cs 0 code (out ++ (c ∷ [])) in if c == 37 then escaped else copied
decode_loop (c ∷ cs) (suc zero) code out =
    let second = decode_loop cs 2 (c - 48) out in if is_digit c then second else (negsuc 0, out)
decode_loop (c ∷ cs) (suc (suc state)) code out =
    let letter = decode_loop cs 0 code (out ++ (((code * 16 + c - 55) % 256) ∷ [])) in
    let digit = decode_loop cs 0 code (out ++ (((code * 16 + c - 48) % 256) ∷ [])) in
    if is_digit c then digit else if is_alnum c then letter else (negsuc 0, out)

-- `URLDecode`
unfoldable pub url_decode : Text → ℤ × Text
url_decode src = decode_loop src 0 0 []

-- The string that an array holds, by its length.
unfoldable pub strlen : List ℕ → Option ℕ
strlen [] = none
strlen (c ∷ cs) = let rest = strlen cs in if c == 0 then some 0 else (rest >>= λ n. some (suc n))

-- `src[i]` for some consecutive `i`.
unfoldable pub read_from : ℕ → ℕ → List ℕ → Option (List ℕ)
read_from zero i block = some []
read_from (suc n) i block = elim (drop i block) [
  | [] ↦ none
  | c ∷ cs ↦ read_from n (i + 1) block >>= λ rest. some (c ∷ rest)
]

-- What `strncpy` copies of an array: zeros from the first zero on.
unfoldable pub padded : List ℕ → List ℕ
padded [] = []
padded (c ∷ cs) = let rest = padded cs in if c == 0 then replicate (suc (length cs)) 0 else c ∷ rest

-- `Change344To444FormatPhoneNumber(src)`: what the array is then. What the first branch computes is not
-- written back.
unfoldable pub change_344_to_444 : List ℕ → Option (List ℕ)
change_344_to_444 block = strlen block >>= λ n.
    if is_prefix (49 ∷ 48 ∷ []) block
    then (read_from (if n == 9 then 7 else 8) 2 block >>= λ digits. some block)
    else (read_from 3 0 block >>= λ company.
        (if n == 10
          then (read_from 7 3 block >>= λ digits. some (48 ∷ digits))
          else read_from 8 3 block)
        >>= λ digits. store block 0 (padded (company ++ (48 ∷ digits))))

-- What stands between the last two of three texts that are looked for one behind the other, with
-- `strstr` or `strchr`; `none` is the result -1.
unfoldable pub between : Text → Text → Text → Text → Option Text
between first second third s = find first s >>= λ (before, s1).
    find second s1 >>= λ (between_them, s2). find third s2 >>= λ (found, rest). some found

-- `GetQueryPage`: "GET ", "/", " HTTP"
unfoldable pub get_query_page : Text → Option Text
get_query_page s = between (71 ∷ 69 ∷ 84 ∷ 32 ∷ []) (47 ∷ []) (32 ∷ 72 ∷ 84 ∷ 84 ∷ 80 ∷ []) s

-- `GetURL`: "http:/", "/", "/"
unfoldable pub get_url : Text → Option Text
get_url s = between (104 ∷ 116 ∷ 116 ∷ 112 ∷ 58 ∷ 47 ∷ []) (47 ∷ []) (47 ∷ []) s

-- `GetResultCode`: "Result Code", a quote, a quote; `ResultCode` has 20 characters.
unfoldable pub get_result_code : Text → Option ℤ
get_result_code s =
    elim (between (82 ∷ 101 ∷ 115 ∷ 117 ∷ 108 ∷ 116 ∷ 32 ∷ 67 ∷ 111 ∷ 100 ∷ 101 ∷ []) (34 ∷ [])
      (34 ∷ []) s) [
        | none ↦ some (negsuc 0)
        | some code ↦ if ltb (length code) 20 then some (pos 0) else none
      ]

-- `GetResultHtml`: what stands behind the first empty line.
unfoldable pub get_result_html : Text → Option Text
get_result_html s = find (13 ∷ 10 ∷ 13 ∷ 10 ∷ []) s >>= λ (before, html). some html
