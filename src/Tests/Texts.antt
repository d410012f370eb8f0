-- ===== src/Tests/Texts.antt =====
-- The functions on texts of src/NPUtil.cpp at concrete inputs.
use thunder_chat.Prelude.{
  ℕ, ◌≡◌, ◌++◌, ◌/◌, ◌==◌, refl, some, Bool, false, [], ◌∷◌, arith, inr, drop,
}
use thunder_chat.Prelude.Int.{pos, negsuc}
use thunder_chat.Properties.{Text}
use thunder_chat.Formats.{hex_digit}
use thunder_chat.ChatServer.Split.{is_prefix}
use thunder_chat.ServerInfo.Texts.{no_character, character}
use thunder_chat.Utilities.{
  replace_loop, replace_all, url_decode, change_344_to_444, get_query_page, get_url,
}
use thunder_chat.Utilities.Replace.{Replaced, replace_all-Replaced}
use thunder_chat.Utilities.UrlDecode.{AreLow, low, encode, url_decode-encode, url_decode-refuses}
use thunder_chat.Utilities.UrlDecode
use thunder_chat.Utilities.PhoneNumber.{IsNumber, formatted, change_344_to_444-formatted}
use thunder_chat.Utilities.Request.{Finds, get_query_page-Finds}

-- "a%b"
abbrev a_percent_b : Text
a_percent_b = 97 ∷ 37 ∷ 98 ∷ []

replaced_once : replace_all 8 a_percent_b (37 ∷ []) (79 ∷ 75 ∷ []) ≡ some (97 ∷ 79 ∷ 75 ∷ 98 ∷ [])
unfolding replace_all replace_loop is_prefix
replaced_once = refl

replace_all-Replaced_example :
    Replaced 8
      (37 ∷ [])
      (79 ∷ 75 ∷ [])
      a_percent_b
      (replace_all 8 a_percent_b (37 ∷ []) (79 ∷ 75 ∷ []))
replace_all-Replaced_example = replace_all-Replaced 8 37 [] (79 ∷ 75 ∷ []) a_percent_b

abbrev percent_only : ℕ → Bool
percent_only c = c == 37

a_percent_b-AreLow : AreLow a_percent_b
a_percent_b-AreLow =
    low 97 (37 ∷ 98 ∷ []) (omega arith)
      (low 37 (98 ∷ []) (omega arith) (low 98 [] (omega arith) UrlDecode.no_character))

url_decode-encode_example : url_decode (encode percent_only a_percent_b) ≡ (pos 0, a_percent_b)
url_decode-encode_example = url_decode-encode percent_only a_percent_b refl a_percent_b-AreLow

url_decode-refuses_example :
    url_decode (encode percent_only a_percent_b ++ (37 ∷ hex_digit (196 / 16) ∷ 52 ∷ []))
    ≡ (negsuc 0, a_percent_b)
url_decode-refuses_example =
    url_decode-refuses percent_only a_percent_b (52 ∷ []) 196 refl a_percent_b-AreLow (omega arith)

abbrev company : Text
company = 48 ∷ 49 ∷ 49 ∷ []

abbrev digits : Text
digits = 49 ∷ 50 ∷ 51 ∷ 52 ∷ 53 ∷ 54 ∷ 55 ∷ 56 ∷ []

digits-IsNumber : IsNumber company digits (0 ∷ 0 ∷ [])
digits-IsNumber = record {
  three = refl;
  seven_or_eight = inr refl;
  no_zero = character 48 _ (omega arith) (
      character 49 _ (omega arith) (
        character 49 _ (omega arith) (
          character 49 _ (omega arith) (
            character 50 _ (omega arith) (
              character 51 _ (omega arith) (
                character 52 _ (omega arith) (
                  character 53 _ (omega arith) (
                    character 54 _ (omega arith) (
                      character 55 _ (omega arith)
                        (character 56 _ (omega arith) no_character))))))))));
  room = omega arith;
}

not_ten : is_prefix (49 ∷ 48 ∷ []) ((company ++ digits) ++ (0 ∷ 0 ∷ 0 ∷ [])) ≡ false
unfolding is_prefix
not_ten = refl

change_344_to_444-formatted_example :
    change_344_to_444 ((company ++ digits) ++ (0 ∷ 0 ∷ 0 ∷ []))
    ≡ some (formatted company digits ++ drop 12 ((company ++ digits) ++ (0 ∷ 0 ∷ 0 ∷ [])))
change_344_to_444-formatted_example =
    change_344_to_444-formatted company digits (0 ∷ 0 ∷ []) digits-IsNumber not_ten

-- "GET http:/a/b HTTP"
abbrev request : Text
request =
    71 ∷ 69 ∷ 84 ∷ 32 ∷ 104 ∷ 116 ∷ 116 ∷ 112 ∷ 58 ∷ 47 ∷ 97 ∷ 47 ∷ 98 ∷ 32 ∷ 72 ∷ 84 ∷ 84 ∷ 80 ∷ []

get_query_page-Finds_example :
    Finds
      (71 ∷ 69 ∷ 84 ∷ 32 ∷ [])
      (47 ∷ [])
      (32 ∷ 72 ∷ 84 ∷ 84 ∷ 80 ∷ [])
      request
      (get_query_page request)
    × Finds (104 ∷ 116 ∷ 116 ∷ 112 ∷ 58 ∷ 47 ∷ []) (47 ∷ []) (47 ∷ []) request (get_url request)
get_query_page-Finds_example = get_query_page-Finds request
