-- ===== src/Properties/Lines.antt =====
-- `Load` of src/Properties.cpp reads back what a settings file says.
use thunder_chat.Prelude.{
  suc, ◌+◌, ◌≤◌, ◌<◌, ◌≡◌, refl, ap, ap₂, ◌∙◌, Option, none, some, List, [], ◌∷◌, ◌++◌, true, false,
  Bool-cases, Option-cases, inl, inr, arith, length, length-append, if◌then◌else◌, ◌==◌, lt→ltb,
  lt→not_leb, ==_refl,
}
use thunder_chat.Properties.{
  Text, Entry, split_at_equals, copy_text, same_text, assign, add_map, is_skipped, load,
  get_property, max_text_size, max_line_size, is_empty,
}
use thunder_chat.Properties.Trim.{IsBlank, IsClean, trim-padded}

-- A line `name=value` with white space around both.
pub record Setting : Type 0 where
  pub before : Text
  pub name : Text
  pub after_name : Text
  pub before_value : Text
  pub value : Text
  pub after : Text

abbrev pub name_part : Setting → Text
name_part s = s.before ++ (s.name ++ s.after_name)

abbrev pub value_part : Setting → Text
value_part s = s.before_value ++ (s.value ++ s.after)

abbrev pub line_of : Setting → Text
line_of s = name_part s ++ (61 ∷ value_part s)

pub record IsSetting (s : Setting) : Type 0 where
  pub blanks : IsBlank s.before × IsBlank s.after_name × IsBlank s.before_value × IsBlank s.after
  pub clean_name : IsClean s.name
  pub clean_value : IsClean s.value
  pub some_name : 0 < length s.name
  pub some_value : 0 < length s.value
  pub no_equals : split_at_equals (name_part s) ≡ none
  pub short_name : length (name_part s) < max_text_size
  pub short_value : length (value_part s) < max_text_size
  pub not_skipped : is_skipped (line_of s) ≡ false

split_at_first :
    (left right : Text)
    → split_at_equals left ≡ none
    → split_at_equals (left ++ (61 ∷ right)) ≡ some (left, right)
unfolding split_at_equals
split_at_first [] right h = refl
split_at_first (c ∷ cs) right h = elim (Bool-cases (c == 61)) [
  | inl e ↦ absurd (ground (arith, h, e))
  | inr e ↦ elim (Option-cases (split_at_equals cs)) [
    | inl n ↦ rw e (rw (split_at_first cs right n) refl)
    | inr ((name, value), n) ↦ absurd (ground (arith, rw (e, n) at h))
  ]
]

not_empty : (s : Text) → 0 < length s → is_empty s ≡ false
unfolding is_empty
not_empty [] h = absurd (omega (arith, h))
not_empty (c ∷ cs) h = refl

copy_short : (s : Text) → length s < max_text_size → copy_text s ≡ some s
unfolding copy_text
copy_short s h = rw (lt→ltb (length s) max_text_size h) refl

add_map-setting :
    (entries : List Entry) (s : Setting)
    → IsSetting s
    → add_map entries (line_of s) ≡ some (assign entries s.name s.value)
unfolding add_map
add_map-setting entries s i =
    rw (split_at_first (name_part s) (value_part s) i.no_equals, add_map)
      (rw (copy_short (name_part s) i.short_name) (
        rw (copy_short (value_part s) i.short_value) (
          rw (not_empty (name_part s) (omega (arith, i.some_name, name_length))) (
            rw (not_empty (value_part s) (omega (arith, i.some_value, value_length))) (
              ap₂ (λ n v. some (assign entries n v))
                (trim-padded s.before s.name s.after_name i.blanks.0 i.clean_name i.blanks.1)
                (trim-padded s.before_value s.value s.after i.blanks.2 i.clean_value
                  i.blanks.3))))))
  where
    name_length : length s.name ≤ length (name_part s)
    name_length =
        omega (
          arith,
          length-append s.before (s.name ++ s.after_name),
          length-append s.name s.after_name,
        )

    value_length : length s.value ≤ length (value_part s)
    value_length =
        omega
          (arith, length-append s.before_value (s.value ++ s.after), length-append s.value s.after)

same_text_refl : (a : Text) → same_text a a ≡ true
unfolding same_text
same_text_refl [] = refl
same_text_refl (c ∷ cs) = rw (==_refl c) (same_text_refl cs)

same_text_eq : (a b : Text) → same_text a b ≡ true → a ≡ b
unfolding same_text
same_text_eq [] [] h = refl
same_text_eq [] (d ∷ ds) h = absurd (ground (arith, h))
same_text_eq (c ∷ cs) [] h = absurd (ground (arith, h))
same_text_eq (c ∷ cs) (d ∷ ds) h =
    ap₂ ◌∷◌ (ground (arith, h)) (same_text_eq cs ds (ground (arith, h)))

get_property-assign :
    (entries : List Entry) (name value key : Text)
    → get_property (assign entries name value) key
      ≡ (if same_text name key then value else get_property entries key)
unfolding assign get_property
get_property-assign [] name value key = refl
get_property-assign ((k, old) ∷ entries) name value key = elim (Bool-cases (same_text k name)) [
  | inl same ↦ rw same (rw (same_text_eq k name same) (assigned_here name value key old entries))
  | inr other ↦ rw other (elim (Bool-cases (same_text k key)) [
    | inr further ↦ rw further (get_property-assign entries name value key)
    | inl found ↦ rw found (rw (differs k name key found other) refl)
  ])
]
  where
    assigned_here :
        (name value key old : Text) (entries : List Entry)
        → (if same_text name key then value else get_property entries key) ≡ (
            if same_text name key
            then value
            else (if same_text name key then old else get_property entries key))
    assigned_here name value key old entries = elim (Bool-cases (same_text name key)) [
      | inl e ↦ rw e refl
      | inr e ↦ rw e refl
    ]

    differs :
        (k name key : Text)
        → same_text k key ≡ true
        → same_text k name ≡ false
        → same_text name key ≡ false
    differs k name key found other = elim (Bool-cases (same_text name key)) [
      | inr e ↦ e
      | inl e ↦ absurd (ground (arith, other, found, ap (same_text k) (same_text_eq name key e)))
    ]

-- What the last of the settings with the given name says, and `current` if there is none.
abbrev pub last_value : List Setting → Text → Text → Text
last_value [] name current = current
last_value (s ∷ ss) name current =
    last_value ss name (if same_text s.name name then s.value else current)

-- A file of settings, with comments and empty lines between them.
pub data IsFile : List Text → List Setting → Type 0 where
  file_end : IsFile [] []
  comment :
      (line : Text) (lines : List Text) (ss : List Setting)
      → is_skipped line ≡ true
      → length line < max_line_size
      → IsFile lines ss
      → IsFile (line ∷ lines) ss
  setting :
      (s : Setting) (lines : List Text) (ss : List Setting)
      → IsSetting s
      → IsFile lines ss
      → IsFile (line_of s ∷ lines) (s ∷ ss)

pub record Loads (ss : List Setting) (old : List Entry) (result : Option (List Entry))
    : Type 0 where
  pub entries : List Entry
  pub result_eq : result ≡ some entries
  pub says : (name : Text) → get_property entries name ≡ last_value ss name (get_property old name)

load-Loads :
    (lines : List Text) (ss : List Setting) (old : List Entry)
    → IsFile lines ss
    → Loads ss old (load old lines)
unfolding load
load-Loads lines ss old file_end = record { entries = old; result_eq = refl; says = λ name. refl }
load-Loads lines ss old (comment line more _ skipped short f) =
    rw (lt→not_leb max_line_size (length line) short) (rw skipped (load-Loads more ss old f))
load-Loads lines ss old (setting s more rest i f) =
    let next = load-Loads more rest (assign old s.name s.value) f in
    record {
      entries = next.entries;
      result_eq =
          rw
            (lt→not_leb max_line_size (length (line_of s))
              (omega (arith, line_length, i.short_name, i.short_value)))
            (rw i.not_skipped (rw (add_map-setting old s i) next.result_eq));
      says = λ name.
          next.says name ∙ ap (last_value rest name) (get_property-assign old s.name s.value name);
    }
  where
    line_length : length (line_of s) ≡ length (name_part s) + suc (length (value_part s))
    line_length = length-append (name_part s) (61 ∷ value_part s)

-- A file has lines `name=value` with white space around both, comments and empty lines; names and values
-- are not empty, and with their white space shorter than 512 characters. Then `Load` succeeds, and
-- `GetProperty` of any name is what the last setting with exactly that name says, or the empty text.
pub get_property-load :
    (lines : List Text) (ss : List Setting) → IsFile lines ss → Loads ss [] (load [] lines)
get_property-load lines ss f = load-Loads lines ss [] f
