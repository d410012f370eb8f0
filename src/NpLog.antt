-- ===== src/NpLog.antt =====
-- src/NPLog.cpp: the log file and its backups in old_log; LogDump.antt has the dumps. A file is its characters; a call in
-- which an array would overflow is `none`.
pub mod LogDump
pub mod Dump
pub mod Lines
pub mod Byte
pub mod Loop
pub mod Names
pub mod Kept
pub mod Keeping
use thunder_chat.Prelude.{
  ℕ, zero, suc, ◌+◌, ◌-◌, ◌*◌, ◌/◌, ◌%◌, Option, none, some, List, [], ◌∷◌, ◌++◌, Bool, true, false,
  ◌&&◌, ◌||◌, not, ◌==◌, if◌then◌else◌, leb, ltb, ◌>>=◌, length, take, drop, replicate, ◌^◌,
}
use thunder_chat.Prelude.Int.{ℤ, pos, negsuc, is_negative}
use thunder_chat.Properties.{Text, same_text}
use thunder_chat.ChatServer.Split.{is_prefix}
use thunder_chat.Formats.{decimal, zero_padded, hex_digit}

abbrev pub max_logline_size : ℕ
max_logline_size = 1024

abbrev pub max_log_file_size : ℕ
max_log_file_size = 1000000000

-- A file in the directory old_log.
pub record OldLog : Type 0 where
  pub name : Text
  pub content : Text

-- The object with the files that it is about. `fd` is `none` for -1, `file` for a log file that is not
-- there, `old_log` for the directory; the newest backup comes first. The name has fewer than 256
-- characters.
pub record NpLog : Type 0 where
  pub fd : Option ℕ
  pub day : ℕ
  pub file_name : Text
  pub file : Option Text
  pub old_log : Option (List OldLog)

-- `struct tm`
pub record Now : Type 0 where
  pub year : ℕ
  pub month : ℕ
  pub day : ℕ
  pub hour : ℕ
  pub minute : ℕ
  pub second : ℕ

-- What the system answers in one call: `stat_fails` with another error than ENOENT; the first and the
-- second `fopen`; and how many characters `write` takes.
pub record Answers : Type 0 where
  pub stat_fails : Bool
  pub mkdir_works : Bool
  pub opendir_works : Bool
  pub rename_works : Bool
  pub first_open : Option ℕ
  pub second_open : Option ℕ
  pub taken : ℕ

-- The constructor, before which the files are as they are.
unfoldable pub create : Option Text → Option (List OldLog) → NpLog
create file old_log = record { fd = none; day = 0; file_name = []; file = file; old_log = old_log }

-- `basename`
unfoldable pub basename_loop : Text → Text → Text
basename_loop [] from = from
basename_loop (c ∷ cs) from =
    let behind = basename_loop cs cs in
    let further = basename_loop cs from in if c == 47 then behind else further

unfoldable pub basename : Text → Text
basename path = basename_loop path path

-- The name of a backup: "%s.%02d%02d%02d", and then "%s_%d" if there are such files.
unfoldable pub stem : Text → Now → Text
stem path now =
    basename path
    ++ (46
        ∷ (zero_padded 2 (now.year % 100)
            ++ (zero_padded 2 (now.month + 1) ++ zero_padded 2 now.day)))

unfoldable pub backup_name : Text → ℕ → Text
backup_name s zero = s
backup_name s (suc n) = s ++ (95 ∷ decimal (suc n))

-- `FileCount`
unfoldable pub count_files : Text → List OldLog → ℕ
count_files s [] = 0
count_files s (f ∷ fs) = if is_prefix s f.name then suc (count_files s fs) else count_files s fs

unfoldable pub file_count : Bool → Text → List OldLog → ℕ
file_count opened s files = if opened then count_files s files else 0

-- What `rename` replaces.
unfoldable pub remove_file : Text → List OldLog → List OldLog
remove_file name [] = []
remove_file name (f ∷ fs) =
    let rest = remove_file name fs in if same_text f.name name then rest else f ∷ rest

-- The end of `BackupLogFile`, when the directory is there.
unfoldable pub move_file : NpLog → Now → Answers → List OldLog → NpLog
move_file m now a files =
    let s = stem m.file_name now in
    let name = backup_name s (file_count a.opendir_works s files) in
    elim m.file [
      | none ↦ record m { old_log = some files }
      | some content ↦
          if a.rename_works
          then record m {
            file = none;
            old_log = some (record { name = name; content = content } ∷ remove_file name files);
          }
          else record m { old_log = some files }
    ]

-- `BackupLogFile`
unfoldable pub backup_log_file : NpLog → Now → Answers → NpLog
backup_log_file m now a = if a.stat_fails then m else elim m.old_log [
  | none ↦ if a.mkdir_works then move_file m now a [] else m
  | some files ↦ move_file m now a files
]

-- `OpenFd`, which empties a file that is there.
unfoldable pub open_fd : NpLog → Option ℕ → NpLog
open_fd m none = m
open_fd m (some fd) = record m { fd = some fd; file = some [] }

-- `SetFileName`
unfoldable pub set_file_name : NpLog → Text → Now → Answers → NpLog
set_file_name m path now a =
    open_fd (backup_log_file (record m { day = now.day; file_name = path }) now a) a.first_open

-- `FileSize`: -1 without a file, and otherwise the size as an `int` of 32 bits.
unfoldable pub file_size : Option Text → ℤ
file_size none = negsuc 0
file_size (some content) =
    let n = length content % 2 ^ 32 in if ltb n (2 ^ 31) then pos n else negsuc (2 ^ 32 - 1 - n)

-- `FileSize(m_pchFileName) > MAX_LOG_FILE_SIZE`, which compares `unsigned int`s.
unfoldable pub as_unsigned : ℤ → ℕ
as_unsigned (pos n) = n
as_unsigned (negsuc n) = 2 ^ 32 - suc n

unfoldable pub is_large : Option Text → Bool
is_large file = ltb max_log_file_size (as_unsigned (file_size file))

-- `syslog_date_ch`
unfoldable pub syslog_date_ch : NpLog → Now → Answers → NpLog
syslog_date_ch m now a =
    if (m.day == now.day) && not (is_large m.file)
    then m
    else open_fd (backup_log_file (record m { day = now.day; fd = none }) now a) a.first_open

-- The second chance: `m_iLogFd <= 0 || FileSize(m_pchFileName) < 0`.
unfoldable pub open_again : NpLog → Answers → NpLog
open_again m a = elim m.fd [
  | none ↦ open_fd m a.second_open
  | some fd ↦ elim m.file [
    | none ↦ open_fd m a.second_open
    | some content ↦
        if (fd == 0) || is_negative (file_size m.file) then open_fd m a.second_open else m
  ]
]

-- `write` to the log file.
unfoldable pub write_log : NpLog → Text → NpLog
write_log m t = elim m.fd [
  | none ↦ m
  | some fd ↦ elim m.file [ none ↦ m | some content ↦ record m { file = some (content ++ t) } ]
]

-- "%s %s : %s\n" with the date and the time of `CNPUtil::GetTime`.
unfoldable pub log_line : Now → Text → Text
log_line now message =
    zero_padded 4 (now.year + 1900)
    ++ (zero_padded 2 (now.month + 1)
        ++ (zero_padded 2 now.day
            ++ (32
                ∷ (zero_padded 2 now.hour
                    ++ (zero_padded 2 now.minute
                        ++ (zero_padded 2 now.second
                            ++ (32 ∷ 58 ∷ 32 ∷ (message ++ (10 ∷ [])))))))))

-- `Log`, with the message after the conversions.
unfoldable pub log : NpLog → Now → Answers → Text → Option NpLog
log m now a message = elim m.fd [
  | none ↦ some m
  | some fd ↦
      let ready = open_again (syslog_date_ch m now a) a in
      if ltb (length message) (max_logline_size * 2)
        && ltb (length (log_line now message)) (max_logline_size * 3)
      then some (write_log ready (take a.taken (log_line now message)))
      else none
]

-- `LogWithOutLineFeed`, which does not test the descriptor first.
unfoldable pub log_without_line_feed : NpLog → Now → Answers → Text → Option NpLog
log_without_line_feed m now a message =
    let ready = open_again (syslog_date_ch m now a) a in
    if ltb (length message) (max_logline_size * 2)
    then some (write_log ready (take a.taken message))
    else none
