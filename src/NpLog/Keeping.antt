-- ===== src/NpLog/Keeping.antt =====
-- That src/NPLog.cpp keeps what it has logged when it changes files.
use thunder_chat.Prelude.{
  ℕ, ◌+◌, ◌≡◌, refl, ap, sym, ◌∙◌, subst, Option, none, some, List, [], ◌++◌, Bool, true, false,
  ◌&&◌, if◌then◌else◌, length, take, append-nil, append_assoc, arith, ◌*◌, ltb, some-inj,
  Option-cases, inl, inr,
}
use thunder_chat.Properties.{Text}
use thunder_chat.NpLog.{
  NpLog, OldLog, Now, Answers, basename, backup_log_file, set_file_name, syslog_date_ch, open_again,
  write_log, log_line, log, log_without_line_feed, create, max_logline_size,
}
use thunder_chat.NpLog.Names.{AreNamed, IsDate}
use thunder_chat.NpLog.Kept.{
  joined, files_of, text_in, contents, Works, IsKept, open_fd-IsKept, backup_log_file-IsMoved,
  syslog_date_ch-IsKept, syslog_date_ch-short, open_again-IsKept, write_log-IsKept, accepted,
}

-- The end of both calls.
end_of_log-IsKept :
    (path t : Text) (m m' : NpLog) (now : Now) (a : Answers) (line : Text) (fits : Bool)
    → IsDate now
    → Works a
    → IsKept path t m
    → (if fits
        then some (write_log (open_again (syslog_date_ch m now a) a) (take a.taken line))
        else none)
      ≡ some m'
    → IsKept path (t ++ accepted m' a line) m'
end_of_log-IsKept path t m m' now a line true d w v e =
    subst (λ n. IsKept path (t ++ accepted n a line) n) (some-inj e)
      (write_log-IsKept path t (open_again (syslog_date_ch m now a) a) a line (
        open_again-IsKept path t (syslog_date_ch m now a) a w
          (syslog_date_ch-IsKept path t m now a d w v)
          (λ content. syslog_date_ch-short path t m now a content d w v)))
end_of_log-IsKept path t m m' now a line false d w v e = absurd (ground (arith, e))

-- The calls on a log file, from `SetFileName` of a new object on, with what they have added.
pub data Run (path : Text) (before : NpLog) : NpLog → Text → Type 0 where
  named_file :
      (now : Now) (a : Answers)
      → IsDate now
      → Works a
      → Run path before (set_file_name before path now a) []
  logged :
      (m m' : NpLog) (w : Text) (now : Now) (a : Answers) (message : Text)
      → Run path before m w
      → IsDate now
      → Works a
      → log m now a message ≡ some m'
      → Run path before m' (w ++ accepted m' a (log_line now message))
  logged_bare :
      (m m' : NpLog) (w : Text) (now : Now) (a : Answers) (message : Text)
      → Run path before m w
      → IsDate now
      → Works a
      → log_without_line_feed m now a message ≡ some m'
      → Run path before m' (w ++ accepted m' a message)

log-IsKept :
    (path t : Text) (m m' : NpLog) (now : Now) (a : Answers) (message : Text)
    → IsDate now
    → Works a
    → IsKept path t m
    → log m now a message ≡ some m'
    → IsKept path (t ++ accepted m' a (log_line now message)) m'
unfolding log
log-IsKept path t m m' now a message d w v e = elim (Option-cases m.fd) [
  | inl none_open ↦
      let same : m ≡ m' = some-inj (by_fd none none_open) in
      let nothing : accepted m a (log_line now message) ≡ [] = rw none_open refl in
      subst (λ n. IsKept path (t ++ accepted n a (log_line now message)) n) same
        (subst (λ x. IsKept path x m) (sym (append-nil t) ∙ ap (t ++◌) (sym nothing)) v)
  | inr (fd, fd_eq) ↦
      end_of_log-IsKept path t m m' now a (log_line now message)
        (ltb (length message) (max_logline_size * 2)
          && ltb (length (log_line now message)) (max_logline_size * 3))
        d w v (by_fd (some fd) fd_eq)
]
  where
    finished : Option NpLog
    finished =
        if ltb (length message) (max_logline_size * 2)
          && ltb (length (log_line now message)) (max_logline_size * 3)
        then some (
            write_log (open_again (syslog_date_ch m now a) a) (take a.taken (log_line now message)))
        else none

    by_fd :
        (f : Option ℕ)
        → m.fd ≡ f
        → (elim f as (λ _. Option NpLog) [ none ↦ some m | some _ ↦ finished ]) ≡ some m'
    by_fd f fd_eq =
        sym (ap (λ f. elim f as (λ _. Option NpLog) [ none ↦ some m | some _ ↦ finished ]) fd_eq)
        ∙ e

log_without_line_feed-IsKept :
    (path t : Text) (m m' : NpLog) (now : Now) (a : Answers) (message : Text)
    → IsDate now
    → Works a
    → IsKept path t m
    → log_without_line_feed m now a message ≡ some m'
    → IsKept path (t ++ accepted m' a message) m'
unfolding log_without_line_feed
log_without_line_feed-IsKept path t m m' now a message d w v e =
    end_of_log-IsKept path t m m' now a message (ltb (length message) (max_logline_size * 2)) d w v
      e

Run-IsKept :
    (path : Text) (file : Option Text) (old : Option (List OldLog)) (m : NpLog) (w : Text)
    → AreNamed (length (basename path) + 7) (files_of old)
    → Run path (create file old) m w
    → IsKept path ((joined (files_of old) ++ text_in file) ++ w) m
unfolding set_file_name create
Run-IsKept path file old m w names (named_file now a d works) =
    subst (λ t. IsKept path t m) (sym (append-nil (joined (files_of old) ++ text_in file)))
      (open_fd-IsKept path (joined (files_of old) ++ text_in file)
        (backup_log_file (record (create file old) { day = now.day; file_name = path }) now a)
        a.first_open works.first
        (backup_log_file-IsMoved path (joined (files_of old) ++ text_in file)
          (record (create file old) { day = now.day; file_name = path }) now a d works refl refl
          names refl))
Run-IsKept path file old m _ names (logged m0 _ w now a message r d works e) =
    subst (λ t. IsKept path t m)
      (append_assoc (joined (files_of old) ++ text_in file) w (accepted m a (log_line now message)))
      (log-IsKept path ((joined (files_of old) ++ text_in file) ++ w) m0 m now a message d works
        (Run-IsKept path file old m0 w names r) e)
Run-IsKept path file old m _ names (logged_bare m0 _ w now a message r d works e) =
    subst (λ t. IsKept path t m)
      (append_assoc (joined (files_of old) ++ text_in file) w (accepted m a message))
      (log_without_line_feed-IsKept path ((joined (files_of old) ++ text_in file) ++ w) m0 m now a
        message d works (Run-IsKept path file old m0 w names r) e)

-- Where old_log has no files but earlier backups under their names, the calls on it and `rename` work, and
-- `fopen` fails or gives another descriptor than 0: whatever is logged, at whichever dates and sizes of the
-- log file, the backups, the oldest first, and the log file hold what they and the log file held at the
-- start, followed by every character that the calls have written, in order.
pub Run-keeps :
    (path : Text) (file : Option Text) (old : Option (List OldLog)) (m : NpLog) (w : Text)
    → AreNamed (length (basename path) + 7) (files_of old)
    → Run path (create file old) m w
    → contents m ≡ (joined (files_of old) ++ text_in file) ++ w
Run-keeps path file old m w names r = (Run-IsKept path file old m w names r).keeps
