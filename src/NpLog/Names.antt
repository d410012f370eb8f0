-- ===== src/NpLog/Names.antt =====
-- The names that `BackupLogFile` of src/NPLog.cpp gives to the files in old_log.
use thunder_chat.Prelude.{
  ℕ, zero, suc, ◌+◌, ◌%◌, ◌≤◌, ◌<◌, ◌≡◌, refl, ap, ap₂, sym, ◌∙◌, List, [], ◌∷◌, ◌++◌, true, length,
  take, drop, length-append, append-nil, take-append_length, drop-append_length, arith, Bool-cases,
  inl, inr,
}
use thunder_chat.Properties.{Text, same_text}
use thunder_chat.ChatServer.Split.{is_prefix}
use thunder_chat.Formats.{decimal, zero_padded}
use thunder_chat.Formats.Numbers.{decimal-injective, length-two_digits}
use thunder_chat.NpLog.{OldLog, Now, basename, stem, backup_name, count_files, remove_file}

-- Backups, the newest first, each with the name that it gets for a stem of `size` characters behind the
-- older ones.
pub data AreNamed (size : ℕ) : List OldLog → Type 0 where
  no_files : AreNamed size []
  named :
      (s : Text) (f : OldLog) (fs : List OldLog)
      → length s ≡ size
      → f.name ≡ backup_name s (count_files s fs)
      → AreNamed size fs
      → AreNamed size (f ∷ fs)

-- A date of which each part is printed with two digits.
pub record IsDate (now : Now) : Type 0 where
  pub month_short : now.month + 1 < 100
  pub day_short : now.day < 100

same_text-eq : (s t : Text) → same_text s t ≡ true → s ≡ t
unfolding same_text
same_text-eq [] [] e = refl
same_text-eq [] (d ∷ ds) e = absurd (ground (arith, e))
same_text-eq (c ∷ cs) [] e = absurd (ground (arith, e))
same_text-eq (c ∷ cs) (d ∷ ds) e =
    ap₂ ◌∷◌ (ground (arith, e)) (same_text-eq cs ds (ground (arith, e)))

-- What a backup's name has behind the stem.
suffix : ℕ → Text
suffix zero = []
suffix (suc n) = 95 ∷ decimal (suc n)

backup_name-suffix : (s : Text) (k : ℕ) → backup_name s k ≡ s ++ suffix k
unfolding backup_name suffix
backup_name-suffix s zero = sym (append-nil s)
backup_name-suffix s (suc n) = refl

suffix-injective : (k j : ℕ) → suffix k ≡ suffix j → k ≡ j
unfolding suffix
suffix-injective zero zero e = refl
suffix-injective zero (suc j) e = absurd (omega (arith, ap length e))
suffix-injective (suc k) zero e = absurd (omega (arith, ap length e))
suffix-injective (suc k) (suc j) e = decimal-injective (suc k) (suc j) (ap (drop 1) e)

parts_eq : (s t x y : Text) → length s ≡ length t → s ++ x ≡ t ++ y → (s ≡ t) × (x ≡ y)
parts_eq s t x y size e = (
  sym (take-append_length s x)
      ∙ ap (take (length s)) e
      ∙ ap (λ n. take n (t ++ y)) size
      ∙ take-append_length t y,
  sym (drop-append_length s x)
      ∙ ap (drop (length s)) e
      ∙ ap (λ n. drop n (t ++ y)) size
      ∙ drop-append_length t y,
)

backup_name-injective :
    (s t : Text) (k j : ℕ)
    → length s ≡ length t
    → backup_name s k ≡ backup_name t j
    → (s ≡ t) × (k ≡ j)
backup_name-injective s t k j size e =
    let same =
      parts_eq s t (suffix k) (suffix j) size
        (sym (backup_name-suffix s k) ∙ e ∙ backup_name-suffix t j) in
    (same.0, suffix-injective k j same.1)

is_prefix_self : (s t : Text) → is_prefix s (s ++ t) ≡ true
unfolding is_prefix
is_prefix_self [] t = refl
is_prefix_self (c ∷ cs) t = ground (arith, is_prefix_self cs t)

is_prefix-backup_name : (s : Text) (k : ℕ) → is_prefix s (backup_name s k) ≡ true
is_prefix-backup_name s k = ap (is_prefix s) (backup_name-suffix s k) ∙ is_prefix_self s (suffix k)

count_files-grows :
    (s : Text) (f : OldLog) (fs : List OldLog) → count_files s fs ≤ count_files s (f ∷ fs)
unfolding count_files
count_files-grows s f fs = ground arith

-- The next name is not that of an older file, so that `rename` replaces none.
pub remove_file-fresh :
    (size : ℕ) (s : Text) (k : ℕ) (files : List OldLog)
    → AreNamed size files
    → length s ≡ size
    → count_files s files ≤ k
    → remove_file (backup_name s k) files ≡ files
unfolding remove_file count_files
remove_file-fresh size s k _ no_files s_size counted = refl
remove_file-fresh size s k _ (named t f fs t_size name older) s_size counted =
    elim (Bool-cases (same_text f.name (backup_name s k))) [
      | inl same ↦
          let eqs =
            backup_name-injective s t k (count_files t fs) (s_size ∙ sym t_size)
              (sym (same_text-eq f.name (backup_name s k) same) ∙ name) in
          let starts : is_prefix s f.name ≡ true =
            ap (is_prefix s) (same_text-eq f.name (backup_name s k) same)
            ∙ is_prefix-backup_name s k in
          let counts : count_files s fs ≡ k = ap (λ x. count_files x fs) eqs.0 ∙ sym eqs.1 in
          absurd (ground (arith, counted, starts, counts))
      | inr other ↦ rw other (
          ap (f ∷◌) (
            remove_file-fresh size s k fs older s_size
              (ground (arith, counted, count_files-grows s f fs))))
    ]

pub length-stem :
    (path : Text) (now : Now) → IsDate now → length (stem path now) ≡ length (basename path) + 7
unfolding stem
length-stem path now d = omega (
  arith,
  length-append (basename path) (
      46
      ∷ (zero_padded 2 (now.year % 100)
          ++ (zero_padded 2 (now.month + 1) ++ zero_padded 2 now.day))),
  length-append (zero_padded 2 (now.year % 100))
      (zero_padded 2 (now.month + 1) ++ zero_padded 2 now.day),
  length-append (zero_padded 2 (now.month + 1)) (zero_padded 2 now.day),
  length-two_digits (now.year % 100) (omega arith),
  length-two_digits (now.month + 1) d.month_short,
  length-two_digits now.day d.day_short,
)
