-- ===== src/Logging.antt =====
-- internal/logging/logging.go: what a logger is made of. The handlers are those of `log/slog`.
use workloadguard.Base.{
  String, string_eq, Option, none, some, Outcome, ok, err, ◌==◌, ◌||◌, if◌then◌else◌,
}
use workloadguard.System.{Env, M, pure, mkdir_all, ◌>>=◌}

pub data Level : Type 0 where
  level_debug level_info level_warn level_error : Level

-- `parse_level` is the `switch` on the text.
unfoldable pub parse_level : String → Level
parse_level level =
    if level == "debug"
    then level_debug
    else if level == "info"
    then level_info
    else if level == "warn" || level == "warning"
    then level_warn
    else if level == "error"
    then level_error
    else level_info

pub record LogConfig : Type 0 where
  pub level : String
  pub format : String
  pub output : String

pub data LogWriter : Type 0 where
  stdout stderr discard : LogWriter
  log_file : String → LogWriter

pub data LogFormat : Type 0 where
  json_format text_format : LogFormat

pub record Logger : Type 0 where
  pub level : Level
  pub format : LogFormat
  pub writer : LogWriter

abbrev handler_format : String → LogFormat
handler_format format = if format == "text" then text_format else json_format

-- `filepath.Dir`, and the error of `os.OpenFile` on a path.
module _ (env : Env) (dir_of : String → String) (open_result : String → Option String) where
  abbrev pub opened_log : String → Option String → Outcome LogWriter
  opened_log path (some e) = err e
  opened_log path none = ok (log_file path)

  -- what follows `os.MkdirAll`
  abbrev pub after_log_dir : String → Option String → Outcome LogWriter
  after_log_dir path (some e) = err e
  after_log_dir path none = opened_log path (open_result path)

  -- the `switch` on the output
  unfoldable pub choose_writer : String → M (Outcome LogWriter)
  choose_writer output =
      if output == "" || output == "stdout"
      then pure (ok stdout)
      else if output == "stderr"
      then pure (ok stderr)
      else (mkdir_all env (dir_of output) >>= λ failed. pure (after_log_dir output failed))

  abbrev pub with_writer : LogConfig → Outcome LogWriter → Outcome Logger
  with_writer cfg (err e) = err e
  with_writer cfg (ok w) =
      ok (record { level = parse_level cfg.level; format = handler_format cfg.format; writer = w })

  unfoldable pub new_logger : LogConfig → M (Outcome Logger)
  new_logger cfg = choose_writer cfg.output >>= λ chosen. pure (with_writer cfg chosen)

unfoldable pub new_stdout : String → Logger
new_stdout level = record { level = parse_level level; format = json_format; writer = stdout }

unfoldable pub new_stderr : String → Logger
new_stderr level = record { level = parse_level level; format = json_format; writer = stderr }

abbrev pub new_discard : Logger
new_discard = record { level = level_info; format = text_format; writer = discard }
