-- ===== src/Tests/Logs.antt =====
-- The log file and the dumps of src/NPLog.cpp at concrete inputs.
use thunder_chat.Prelude.{
  ℕ, ◌≡◌, ◌++◌, refl, some, none, Option, true, false, List, [], ◌∷◌, arith, length,
}
use thunder_chat.Properties.{Text, same_text}
use thunder_chat.ChatServer.Split.{is_prefix}
use thunder_chat.Formats.{decimal, decimal_loop, zero_padded}
use thunder_chat.NpLog.{
  NpLog, Now, Answers, create, set_file_name, open_fd, backup_log_file, move_file, stem, basename,
  basename_loop, file_count, count_files, backup_name, remove_file, syslog_date_ch, is_large,
  file_size, as_unsigned, open_again, write_log, log_line, log,
}
use thunder_chat.NpLog.LogDump.{log_dump}
use thunder_chat.NpLog.Dump.{rows}
use thunder_chat.NpLog.Loop.{log_dump-rows}
use thunder_chat.NpLog.Names.{no_files, IsDate}
use thunder_chat.NpLog.Kept.{Works, opens, fails, contents, joined, files_of, text_in, accepted}
use thunder_chat.NpLog.Keeping.{Run, named_file, logged, Run-keeps}

-- "Hi" and a zero.
abbrev greeting : List ℕ
greeting = 72 ∷ 105 ∷ 0 ∷ []

log_dump-rows_example : log_dump greeting ≡ some (rows (length greeting) 0 greeting)
log_dump-rows_example = log_dump-rows greeting (omega arith)

-- "l/x"
abbrev log_path : Text
log_path = 108 ∷ 47 ∷ 120 ∷ []

abbrev evening : Now
evening = record { year = 118; month = 11; day = 31; hour = 23; minute = 59; second = 59 }

abbrev midnight : Now
midnight = record { year = 119; month = 0; day = 1; hour = 0; minute = 0; second = 0 }

abbrev working : Answers
working = record {
  stat_fails = false;
  mkdir_works = true;
  opendir_works = true;
  rename_works = true;
  first_open = some 4;
  second_open = none;
  taken = 100;
}

working-Works : Works working
working-Works = record {
  stat_works = refl;
  mkdir_works = refl;
  opendir_works = refl;
  rename_works = refl;
  first = opens 3;
  second = fails;
}

-- What was logged before.
abbrev earlier : Text
earlier = 79 ∷ []

abbrev started : NpLog
started = set_file_name (create (some earlier) none) log_path evening working

abbrev after_midnight : Option NpLog
after_midnight = log started midnight working (72 ∷ 105 ∷ [])

abbrev logs_after : NpLog
logs_after = record {
  fd = some 4;
  day = 1;
  file_name = log_path;
  file = some (log_line midnight (72 ∷ 105 ∷ []));
  old_log = some (
      record { name = 120 ∷ 46 ∷ 49 ∷ 57 ∷ 48 ∷ 49 ∷ 48 ∷ 49 ∷ []; content = [] }
      ∷ record { name = 120 ∷ 46 ∷ 49 ∷ 56 ∷ 49 ∷ 50 ∷ 51 ∷ 49 ∷ []; content = earlier }
      ∷ []);
}

moved_at_midnight : after_midnight ≡ some logs_after
unfolding log set_file_name open_fd backup_log_file move_file stem basename basename_loop file_count
    count_files backup_name remove_file syslog_date_ch is_large file_size as_unsigned open_again
    write_log log_line create decimal decimal_loop zero_padded is_prefix same_text
moved_at_midnight = refl

midnight-IsDate : IsDate midnight
midnight-IsDate = record { month_short = omega arith; day_short = omega arith }

evening-IsDate : IsDate evening
evening-IsDate = record { month_short = omega arith; day_short = omega arith }

logs_after-Run :
    Run log_path
      (create (some earlier) none)
      logs_after
      ([] ++ accepted logs_after working (log_line midnight (72 ∷ 105 ∷ [])))
logs_after-Run =
    logged started logs_after [] midnight working (72 ∷ 105 ∷ [])
      (named_file evening working evening-IsDate working-Works) midnight-IsDate working-Works
      moved_at_midnight

Run-keeps_example :
    contents logs_after
    ≡ (joined (files_of none) ++ text_in (some earlier))
      ++ ([] ++ accepted logs_after working (log_line midnight (72 ∷ 105 ∷ [])))
Run-keeps_example =
    Run-keeps log_path (some earlier) none logs_after
      ([] ++ accepted logs_after working (log_line midnight (72 ∷ 105 ∷ []))) no_files
      logs_after-Run
