-- ===== src/Log.antt =====
-- The log of app/ngx_log.cxx: ngx_log_stderr, ngx_log_errno, ngx_log_error_core and ngx_log_init.
-- strerror and the sprintf of a number are the C library's, the clock and what write() and open()
-- return are the system's: they are arguments. A write behind the end of an array has no result.
pub mod Line
pub mod Written
use net_server.Base.{
  ℕ, suc, ◌+◌, ◌-◌, ◌^◌, Bool, false, Option, none, some, ◌>>=◌, List, [], ◌∷◌, ◌++◌, length, take,
  ltb, leb, ◌==◌, if◌then◌else◌,
}
use net_server.Base.Text.{bytes}
use net_server.Printf.{Doubles, Arg, word, text_at, vslprintf}

-- NGX_MAX_ERROR_STR
abbrev pub max_error_str : ℕ
max_error_str = 2048

-- STDERR_FILENO
abbrev pub stderr_fileno : ℕ
stderr_fileno = 2

-- NGX_LOG_NOTICE
abbrev pub log_notice : ℕ
log_notice = 6

-- err_levels, by the number of the level.
abbrev pub err_levels : List (List ℕ)
err_levels =
    bytes "stderr"
    ∷ bytes "emerg"
    ∷ bytes "alert"
    ∷ bytes "crit"
    ∷ bytes "error"
    ∷ bytes "warn"
    ∷ bytes "notice"
    ∷ bytes "info"
    ∷ bytes "debug"
    ∷ []

abbrev pub level_name : List (List ℕ) → ℕ → Option (List ℕ)
level_name [] level = none
level_name (n ∷ ns) ℕ.zero = some n
level_name (n ∷ ns) (suc level) = level_name ns level

-- The texts of the C library: strerror, and sprintf with "%d".
pub record Libc : Type 0 where
  pub strerror : ℕ → List ℕ
  pub decimal : ℕ → List ℕ

-- `leftstr`, an array of ten bytes.
abbrev pub left_str : Libc → ℕ → Option (List ℕ)
left_str c err =
    let text = bytes " (" ++ (c.decimal err ++ bytes ": ") in
    if ltb (length text) 10 then some text else none

-- ngx_log_errno: the text of the error is added if all of it fits.
unfoldable pub log_errno : Libc → ℕ → List ℕ → Option (List ℕ)
log_errno c err text = left_str c err >>= λ left.
    let more = left ++ (c.strerror err ++ bytes ") ") in
    if ltb (length text + length more) max_error_str then some (text ++ more) else some text

-- `if (err)`
abbrev pub with_errno : Libc → ℕ → List ℕ → Option (List ℕ)
with_errno c err text = if err == 0 then some text else log_errno c err text

-- The end of a line: a place for '\n' is kept.
abbrev pub end_line : List ℕ → List ℕ
end_line text =
    (if leb (max_error_str - 1) (length text) then take (max_error_str - 2) text else text)
    ++ 10 ∷ []

-- The local time.
pub record Time : Type 0 where
  pub year : ℕ
  pub mon : ℕ
  pub mday : ℕ
  pub hour : ℕ
  pub min : ℕ
  pub sec : ℕ

-- `ngx_log` and `ngx_pid`. A descriptor of -1 is `none`.
pub record LogFile : Type 0 where
  pub fd : Option ℕ
  pub log_level : ℕ

-- What write() does: all is written, -1 with ENOSPC, or -1 with another error.
pub data WriteResult : Type 0 where
  written no_space write_error : WriteResult

abbrev pub time_format : List ℕ
time_format = bytes "%4d/%02d/%02d %02d:%02d:%02d"

module _ (fl : Doubles) (c : Libc) where
  -- ngx_slprintf, behind `text` in a buffer of `cap` bytes.
  abbrev pub slprintf : ℕ → List ℕ → List (Arg fl) → List ℕ → Option (List ℕ)
  slprintf cap fmt args text = vslprintf fl (suc (length fmt)) cap fmt args text

  -- The line that ngx_log_stderr makes.
  unfoldable pub stderr_line : ℕ → List ℕ → List (Arg fl) → Option (List ℕ)
  stderr_line err fmt args = slprintf max_error_str fmt args (bytes "nginx: ") >>= λ text.
      (with_errno c err text >>= λ text'. some (end_line text'))

  abbrev pub time_args : Time → List (Arg fl)
  time_args t = word t.year ∷ word t.mon ∷ word t.mday ∷ word t.hour ∷ word t.min ∷ word t.sec ∷ []

  -- `strcurrtime`, an array of 40 bytes which is written with no limit.
  unfoldable pub current_time : Time → Option (List ℕ)
  current_time t = slprintf (2 ^ 64) time_format (time_args t) [] >>= λ text.
      if ltb (length text) 40 then some text else none

  -- The line that ngx_log_error_core makes.
  unfoldable pub error_line : ℕ → Time → ℕ → ℕ → List ℕ → List (Arg fl) → Option (List ℕ)
  error_line pid now level err fmt args = do
    time ← current_time now
    name ← level_name err_levels level
    text ← slprintf max_error_str (bytes " [%s] ") (text_at name ∷ []) time
    text₁ ← slprintf max_error_str (bytes "%P: ") (word pid ∷ []) text
    text₂ ← slprintf max_error_str fmt args text₁
    text₃ ← with_errno c err text₂
    some (end_line text₃)

  -- The loop at the end of ngx_log_error_core, which runs once: the descriptors and what is written
  -- to each.
  unfoldable pub write_line : LogFile → WriteResult → ℕ → List ℕ → List (Option ℕ × List ℕ)
  write_line log result level line = if ltb log.log_level level then [] else elim result [
    | written ↦ (log.fd, line) ∷ []
    | no_space ↦ (log.fd, line) ∷ []
    | write_error ↦ elim log.fd [
      | none ↦ (none, line) ∷ (some stderr_fileno, line) ∷ []
      | some fd ↦
          if fd == stderr_fileno
          then (some fd, line) ∷ []
          else (some fd, line) ∷ (some stderr_fileno, line) ∷ []
    ]
  ]

  -- ngx_log_error_core
  unfoldable pub log_error_core :
      LogFile
      → ℕ
      → Time
      → WriteResult
      → ℕ
      → ℕ
      → List ℕ
      → List (Arg fl)
      → Option (List (Option ℕ × List ℕ))
  log_error_core log pid now result level err fmt args =
      error_line pid now level err fmt args >>= λ line. some (write_line log result level line)

  -- `ngx_log.fd > STDERR_FILENO`
  abbrev pub is_file : LogFile → Bool
  is_file log = elim log.fd [ none ↦ false | some fd ↦ ltb stderr_fileno fd ]

  -- ngx_log_stderr: the line goes to the standard error output, and then it is the format of a line of
  -- the log, if that is a file.
  unfoldable pub log_stderr :
      LogFile
      → ℕ
      → Time
      → WriteResult
      → ℕ
      → List ℕ
      → List (Arg fl)
      → Option (List (Option ℕ × List ℕ))
  log_stderr log pid now result err fmt args = do
    line ← stderr_line err fmt args
    more ← (if is_file log then log_error_core log pid now result 0 err line [] else some [])
    some ((some stderr_fileno, line) ∷ more)

-- ngx_log_init, with GetString and GetIntDefault: the name that open() gets, and the log.
unfoldable pub log_init :
    (List ℕ → Option (List ℕ)) → (List ℕ → ℕ → ℕ) → (List ℕ → Option ℕ) → List ℕ × LogFile
log_init get_string get_int_default open_file =
    let name : List ℕ = elim (get_string (bytes "Log")) [ none ↦ bytes "error.log" | some n ↦ n ] in
    (
      name,
      record {
        fd = elim (open_file name) [ none ↦ some stderr_fileno | some fd ↦ some fd ];
        log_level = get_int_default (bytes "LogLevel") log_notice;
      },
    )
