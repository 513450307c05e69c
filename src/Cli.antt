-- ===== src/Cli.antt =====
-- internal/cli: the commands, over the configuration, the application and the logger. The flags are
-- what the command line library has parsed; what a command prints is a list of texts.
pub mod Composition
use workloadguard.Base.{
  ℤ, Bool, true, false, String, string_eq, List, [], ◌∷◌, ◌++◌, map, Option, none, some, Outcome,
  ok, err, ◌==◌, not, if◌then◌else◌, length,
}
use workloadguard.Base.Text.{concat, decimal, decimal_ℕ}
use workloadguard.Float.{Float64, Floats}
use workloadguard.Config.{
  Config, Policy, ConfigError, ReadResult, Unmarshalled, LoadResult, loaded, read_failed,
  parse_failed, load,
}
use workloadguard.Collector.{Readings, Task}
use workloadguard.System.{Env, M, ◌>>=◌, pure}
use workloadguard.Logging.{new_stdout}
use workloadguard.Policy.Cedar.{Cedar}
use workloadguard.Daemon.{Tick}
use workloadguard.Api.{Message, Wire}
use workloadguard.App.Serving.Schedule.{Ended, failed, Schedule, run_app}
use workloadguard.App.{CheckResult, Writer, check, format_text, validate_config, RunOptions}

-- `home` is what `os.UserHomeDir` returns.
unfoldable pub config_path : String → Outcome String → String
config_path cfg_file home = if not (cfg_file == "") then cfg_file else elim home [
  | err e ↦ "config.toml"
  | ok dir ↦ concat (dir ∷ "/.config/workloadguard/config.toml" ∷ [])
]

-- How `validate` ends.
pub data Validation : Type 0 where
  load_refused : String → Validation
  config_refused : ConfigError → Validation
  accepted : List String → Validation

-- Go's texts of a duration and of a number with one decimal.
module _ (duration_text : ℤ → String) (fixed1 : Float64 → String) where
  abbrev spaced : List String → List String
  spaced [] = []
  spaced (word ∷ words) = " " ∷ word ∷ spaced words

  -- `%v` of a slice of strings
  abbrev list_text : List String → List String
  list_text [] = "[]" ∷ []
  list_text (word ∷ words) = "[" ∷ word ∷ spaced words ++ "]" ∷ []

  unfoldable pub policy_line : String × Policy → String
  policy_line (name, p) = concat (
      "  - "
        ∷ name
        ∷ ": process="
        ∷ p.process
        ∷ " max_count="
        ∷ decimal p.max_count
        ∷ " actions="
        ∷ list_text p.actions
      ++ "\n" ∷ [])

  -- in the order of the map
  unfoldable pub config_lines : String → Config → List String
  config_lines path cfg =
      concat ("Configuration valid: " ∷ path ∷ "\n" ∷ [])
      ∷ concat ("  Policies defined: " ∷ decimal_ℕ (length cfg.policies) ∷ "\n" ∷ [])
      ∷ concat ("  Periodic interval: " ∷ duration_text cfg.periodic_interval ∷ "\n" ∷ [])
      ∷ concat ("  Load threshold: " ∷ fixed1 cfg.load_threshold ∷ "\n" ∷ [])
      ∷ map policy_line cfg.policies

  abbrev pub validated : String → Config → Option ConfigError → Validation
  validated path cfg (some e) = config_refused e
  validated path cfg none = accepted (config_lines path cfg)

  abbrev pub after_load : String → LoadResult → Validation
  after_load path (loaded cfg) = validated path cfg (validate_config cfg)
  after_load path (read_failed e) =
      load_refused (concat ("invalid config: read config file: " ∷ e ∷ []))
  after_load path (parse_failed e) =
      load_refused (concat ("invalid config: parse config: " ∷ e ∷ []))

  unfoldable pub run_validate :
      (String → ReadResult)
      → (String → Config → Unmarshalled)
      → String
      → Outcome String
      → Validation
  run_validate read_file unmarshal cfg_file home =
      let path = config_path cfg_file home in after_load path (load read_file unmarshal path)

-- The flags of `run`.
pub record RunFlags : Type 0 where
  pub cfg_file : String
  pub dry_run : Bool
  pub enable_metrics : Bool
  pub enable_api : Bool
  pub addr : String

abbrev pub default_run_flags : RunFlags
default_run_flags = record {
  cfg_file = "";
  dry_run = false;
  enable_metrics = false;
  enable_api = false;
  addr = ":9090";
}

-- `if dryRun { cfg.DryRun = true }`
unfoldable pub with_dry_run : Bool → Config → Config
with_dry_run flag cfg = if flag then record cfg { dry_run = true } else cfg

unfoldable pub run_options : RunFlags → Config → RunOptions
run_options f cfg = record {
  config = with_dry_run f.dry_run cfg;
  logger = new_stdout cfg.log_level;
  metrics = if f.enable_metrics then some [] else none;
  enable_metrics = f.enable_metrics;
  enable_api = f.enable_api;
  addr = f.addr;
}

-- The flags of `check`.
pub record CheckFlags : Type 0 where
  pub cfg_file : String
  pub execute_actions : Bool
  pub output_format : String

abbrev pub default_check_flags : CheckFlags
default_check_flags = record { cfg_file = ""; execute_actions = false; output_format = "json" }

module _ (fl : Floats) (cedar : Cedar) (env : Env) where
  abbrev pub launched : Wire → RunFlags → Schedule fl cedar env → LoadResult → Ended
  launched wire f sch (loaded cfg) = run_app fl cedar env wire (run_options f cfg) sch
  launched wire f sch (read_failed e) = failed (concat ("load config: read config file: " ∷ e ∷ []))
  launched wire f sch (parse_failed e) = failed (concat ("load config: parse config: " ∷ e ∷ []))

  unfoldable pub run_daemon :
      (String → ReadResult)
      → (String → Config → Unmarshalled)
      → RunFlags
      → Outcome String
      → Wire
      → Schedule fl cedar env
      → Ended
  run_daemon read_file unmarshal f home wire sch =
      launched wire f sch (load read_file unmarshal (config_path f.cfg_file home))

  -- `FormatJSON` is the JSON library's; `out` is the standard output.
  module _ (rfc3339 : ℤ → String) (format_json : Writer → CheckResult → List String × Option String)
      (out : Writer) where
    -- what is written, and the command's error
    unfoldable pub print_result : String → Outcome CheckResult → List String × Option String
    print_result format (err e) = ([], some e)
    print_result format (ok result) =
        if format == "json" then format_json out result else format_text fl rfc3339 out result

    abbrev pub checked_with :
        CheckFlags → Readings → List Task → LoadResult → M (List String × Option String)
    checked_with f r order (loaded cfg) =
        check fl cedar env cfg f.execute_actions r order >>= λ result.
        pure (print_result f.output_format result)
    checked_with f r order (read_failed e) =
        pure ([], some (concat ("load config: read config file: " ∷ e ∷ [])))
    checked_with f r order (parse_failed e) =
        pure ([], some (concat ("load config: parse config: " ∷ e ∷ [])))

    unfoldable pub run_check_command :
        (String → ReadResult)
        → (String → Config → Unmarshalled)
        → CheckFlags
        → Outcome String
        → Readings
        → List Task
        → M (List String × Option String)
    run_check_command read_file unmarshal f home r order =
        checked_with f r order (load read_file unmarshal (config_path f.cfg_file home))

-- the last two are parts of the platform's name
unfoldable pub version_lines : String → String → String → String → String → String → List String
version_lines version commit date go_version os arch =
    concat ("workloadguard " ∷ version ∷ "\n" ∷ [])
    ∷ concat ("  commit: " ∷ commit ∷ "\n" ∷ [])
    ∷ concat ("  built:  " ∷ date ∷ "\n" ∷ [])
    ∷ concat ("  go:     " ∷ go_version ∷ "\n" ∷ [])
    ∷ concat ("  os:     " ∷ os ∷ "/" ∷ arch ∷ "\n" ∷ [])
    ∷ []
