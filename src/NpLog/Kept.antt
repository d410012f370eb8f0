-- ===== src/NpLog/Kept.antt =====
-- What the steps of src/NPLog.cpp do to the files.
use thunder_chat.Prelude.{
  ℕ, suc, ◌+◌, ◌≡◌, refl, ap, sym, ◌∙◌, subst, Option, none, some, List, [], ◌∷◌, ◌++◌, true, false,
  ◌&&◌, ◌==◌, not, length, take, append-nil, append_assoc, arith, Bool-cases, Option-cases,
  some-inj, inl, inr,
}
use thunder_chat.Prelude.Int.{is_negative}
use thunder_chat.Properties.{Text}
use thunder_chat.NpLog.{
  NpLog, OldLog, Now, Answers, basename, stem, backup_name, count_files, file_count, move_file,
  backup_log_file, open_fd, is_large, file_size, as_unsigned, syslog_date_ch, open_again, write_log,
}
use thunder_chat.NpLog.Names.{AreNamed, named, IsDate, remove_file-fresh, length-stem}

-- The backups, the oldest first, one behind the other.
abbrev pub joined : List OldLog → Text
joined [] = []
joined (f ∷ fs) = joined fs ++ f.content

abbrev pub files_of : Option (List OldLog) → List OldLog
files_of none = []
files_of (some files) = files

abbrev pub text_in : Option Text → Text
text_in none = []
text_in (some content) = content

-- Everything in the backups and in the log file.
abbrev pub contents : NpLog → Text
contents m = joined (files_of m.old_log) ++ text_in m.file

pub data IsOpened : Option ℕ → Type 0 where
  fails : IsOpened none
  opens : (fd : ℕ) → IsOpened (some (suc fd))

-- Answers of a system in which the directory can be used, and descriptor 0 is taken; whether the log file
-- can be opened, and how much of a line is written, is left open.
pub record Works (a : Answers) : Type 0 where
  pub stat_works : a.stat_fails ≡ false
  pub mkdir_works : a.mkdir_works ≡ true
  pub opendir_works : a.opendir_works ≡ true
  pub rename_works : a.rename_works ≡ true
  pub first : IsOpened a.first_open
  pub second : IsOpened a.second_open

-- A descriptor just when there is a log file.
pub data IsOpen : Option ℕ → Option Text → Type 0 where
  shut : IsOpen none none
  open_file : (fd : ℕ) (t : Text) → IsOpen (some (suc fd)) (some t)

pub record IsKept (path : Text) (t : Text) (m : NpLog) : Type 0 where
  pub keeps : contents m ≡ t
  pub path_eq : m.file_name ≡ path
  pub names : AreNamed (length (basename path) + 7) (files_of m.old_log)
  pub open_eq : IsOpen m.fd m.file

-- The same without a descriptor and a log file, as `BackupLogFile` leaves it.
pub record IsMoved (path : Text) (t : Text) (m : NpLog) : Type 0 where
  pub keeps : contents m ≡ t
  pub path_eq : m.file_name ≡ path
  pub names : AreNamed (length (basename path) + 7) (files_of m.old_log)
  pub no_fd : m.fd ≡ none
  pub no_file : m.file ≡ none

pub open_fd-IsKept :
    (path t : Text) (m : NpLog) (answer : Option ℕ)
    → IsOpened answer
    → IsMoved path t m
    → IsKept path t (open_fd m answer)
unfolding open_fd
open_fd-IsKept path t m _ fails v = record {
  keeps = v.keeps;
  path_eq = v.path_eq;
  names = v.names;
  open_eq = rw (v.no_fd, v.no_file) shut;
}
open_fd-IsKept path t m _ (opens fd) v = record {
  keeps = sym (ap (λ f. joined (files_of m.old_log) ++ text_in f) v.no_file) ∙ v.keeps;
  path_eq = v.path_eq;
  names = v.names;
  open_eq = open_file fd [];
}

move_file-IsMoved :
    (path t : Text) (m : NpLog) (now : Now) (a : Answers) (files : List OldLog)
    → IsDate now
    → Works a
    → m.fd ≡ none
    → m.file_name ≡ path
    → AreNamed (length (basename path) + 7) files
    → joined files ++ text_in m.file ≡ t
    → IsMoved path t (move_file m now a files)
unfolding move_file file_count
move_file-IsMoved path t m now a files d w no_fd path_eq names keeps = elim (Option-cases m.file) [
  | inl e ↦
      subst (IsMoved path t) (sym (not_there e))
        (record { keeps = keeps; path_eq = path_eq; names = names; no_fd = no_fd; no_file = e })
  | inr (content, e) ↦ subst (IsMoved path t) (sym (there content e)) (record {
    keeps =
        append-nil (joined files ++ content) ∙ ap (λ f. joined files ++ text_in f) (sym e) ∙ keeps;
    path_eq = path_eq;
    names = named s (backup content) files s_size refl names;
    no_fd = no_fd;
    no_file = refl;
  })
]
  where
    s : Text
    s = stem m.file_name now

    s_size : length s ≡ length (basename path) + 7
    s_size = length-stem m.file_name now d ∙ ap (λ p. length (basename p) + 7) path_eq

    backup : Text → OldLog
    backup content = record { name = backup_name s (count_files s files); content = content }

    not_there : m.file ≡ none → move_file m now a files ≡ record m { old_log = some files }
    not_there e = rw e refl

    there :
        (content : Text)
        → m.file ≡ some content
        → move_file m now a files
          ≡ record m { file = none; old_log = some (backup content ∷ files) }
    there content e =
        rw (e, w.rename_works, w.opendir_works)
          (ap (λ fs. record m { file = none; old_log = some (backup content ∷ fs) })
            (remove_file-fresh (length (basename path) + 7) s (count_files s files) files names
              s_size (omega arith)))

pub backup_log_file-IsMoved :
    (path t : Text) (m : NpLog) (now : Now) (a : Answers)
    → IsDate now
    → Works a
    → m.fd ≡ none
    → m.file_name ≡ path
    → AreNamed (length (basename path) + 7) (files_of m.old_log)
    → contents m ≡ t
    → IsMoved path t (backup_log_file m now a)
unfolding backup_log_file move_file
backup_log_file-IsMoved path t m now a d w no_fd path_eq names keeps =
    elim (Option-cases m.old_log) [
      | inl e ↦
          let same : backup_log_file m now a ≡ move_file m now a [] =
            rw (w.stat_works, e, w.mkdir_works) refl in
          subst (IsMoved path t) (sym same) (
            move_file-IsMoved path t m now a [] d w no_fd path_eq
              (subst (λ o. AreNamed (length (basename path) + 7) (files_of o)) e names)
              (ap (λ o. joined (files_of o) ++ text_in m.file) (sym e) ∙ keeps))
      | inr (files, e) ↦
          let same : backup_log_file m now a ≡ move_file m now a files =
            rw (w.stat_works, e) refl in
          subst (IsMoved path t) (sym same) (
            move_file-IsMoved path t m now a files d w no_fd path_eq
              (subst (λ o. AreNamed (length (basename path) + 7) (files_of o)) e names)
              (ap (λ o. joined (files_of o) ++ text_in m.file) (sym e) ∙ keeps))
    ]

pub syslog_date_ch-IsKept :
    (path t : Text) (m : NpLog) (now : Now) (a : Answers)
    → IsDate now
    → Works a
    → IsKept path t m
    → IsKept path t (syslog_date_ch m now a)
unfolding syslog_date_ch
syslog_date_ch-IsKept path t m now a d w v =
    elim (Bool-cases ((m.day == now.day) && not (is_large m.file))) [
      | inl e ↦ rw e v
      | inr e ↦ rw e (
          open_fd-IsKept path t (backup_log_file (record m { day = now.day; fd = none }) now a)
            a.first_open w.first
            (backup_log_file-IsMoved path t (record m { day = now.day; fd = none }) now a d w refl
              v.path_eq v.names v.keeps))
    ]

is_large-short :
    (content : Text)
    → is_large (some content) ≡ false
    → is_negative (file_size (some content)) ≡ false
unfolding is_large as_unsigned file_size
is_large-short content e = ground (arith, e)

-- The log file is not so long that its size is a negative `int`.
pub syslog_date_ch-short :
    (path t : Text) (m : NpLog) (now : Now) (a : Answers) (content : Text)
    → IsDate now
    → Works a
    → IsKept path t m
    → (syslog_date_ch m now a).file ≡ some content
    → is_negative (file_size (some content)) ≡ false
unfolding syslog_date_ch open_fd file_size
syslog_date_ch-short path t m now a content d w v e =
    elim (Bool-cases ((m.day == now.day) && not (is_large m.file))) [
      | inl same ↦ is_large-short content (ap is_large (sym (rw same at e)) ∙ ground (arith, same))
      | inr other ↦ opened a.first_open w.first (rw other at e)
    ]
  where
    moved : IsMoved path t (backup_log_file (record m { day = now.day; fd = none }) now a)
    moved =
        backup_log_file-IsMoved path t (record m { day = now.day; fd = none }) now a d w refl
          v.path_eq v.names v.keeps

    opened :
        (answer : Option ℕ)
        → IsOpened answer
        → (open_fd (backup_log_file (record m { day = now.day; fd = none }) now a) answer).file
          ≡ some content
        → is_negative (file_size (some content)) ≡ false
    opened _ fails h = absurd (ground (arith, sym moved.no_file ∙ h))
    opened _ (opens fd) h = subst (λ c. is_negative (file_size (some c)) ≡ false) (some-inj h) refl

pub open_again-IsKept :
    (path t : Text) (m : NpLog) (a : Answers)
    → Works a
    → IsKept path t m
    → ((content : Text) → m.file ≡ some content → is_negative (file_size (some content)) ≡ false)
    → IsKept path t (open_again m a)
unfolding open_again
open_again-IsKept path t m a w v short = by_state m.fd m.file refl refl v.open_eq
  where
    by_state :
        (fd : Option ℕ) (file : Option Text)
        → m.fd ≡ fd
        → m.file ≡ file
        → IsOpen fd file
        → IsKept path t (open_again m a)
    by_state _ _ fd_eq file_eq shut =
        let same : open_again m a ≡ open_fd m a.second_open = rw fd_eq refl in
        subst (IsKept path t) (sym same) (
          open_fd-IsKept path t m a.second_open w.second (record {
            keeps = v.keeps;
            path_eq = v.path_eq;
            names = v.names;
            no_fd = fd_eq;
            no_file = file_eq;
          }))
    by_state _ _ fd_eq file_eq (open_file fd content) =
        let same : open_again m a ≡ m =
          rw (fd_eq, file_eq) (ground (arith, short content file_eq)) in
        subst (IsKept path t) (sym same) v

-- What a call adds to the log: nothing without a descriptor, and otherwise what `write` takes.
abbrev pub accepted : NpLog → Answers → Text → Text
accepted m a t = elim m.fd [ none ↦ [] | some fd ↦ take a.taken t ]

pub write_log-IsKept :
    (path t : Text) (m : NpLog) (a : Answers) (line : Text)
    → IsKept path t m
    → IsKept path
        (t ++ accepted (write_log m (take a.taken line)) a line)
        (write_log m (take a.taken line))
unfolding write_log
write_log-IsKept path t m a line v = by_state m.fd m.file refl refl v.open_eq
  where
    by_state :
        (fd : Option ℕ) (file : Option Text)
        → m.fd ≡ fd
        → m.file ≡ file
        → IsOpen fd file
        → IsKept path
            (t ++ accepted (write_log m (take a.taken line)) a line)
            (write_log m (take a.taken line))
    by_state _ _ fd_eq file_eq shut =
        let same : write_log m (take a.taken line) ≡ m = rw fd_eq refl in
        let nothing : accepted m a line ≡ [] = rw fd_eq refl in
        subst (λ n. IsKept path (t ++ accepted n a line) n) (sym same)
          (subst (λ x. IsKept path x m) (sym (append-nil t) ∙ ap (t ++◌) (sym nothing)) v)
    by_state _ _ fd_eq file_eq (open_file fd content) =
        let longer : NpLog = record m { file = some (content ++ take a.taken line) } in
        let same : write_log m (take a.taken line) ≡ longer = rw (fd_eq, file_eq) refl in
        let taken : accepted longer a line ≡ take a.taken line = rw fd_eq refl in
        subst (λ n. IsKept path (t ++ accepted n a line) n) (sym same)
          (record {
            keeps =
                sym (append_assoc (joined (files_of m.old_log)) content (take a.taken line))
                ∙ ap (λ x. x ++ take a.taken line)
                    (ap (λ f. joined (files_of m.old_log) ++ text_in f) (sym file_eq) ∙ v.keeps)
                ∙ ap (t ++◌) (sym taken);
            path_eq = v.path_eq;
            names = v.names;
            open_eq = rw fd_eq (open_file fd (content ++ take a.taken line));
          })
