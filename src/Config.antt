-- ===== src/Config.antt =====
-- internal/config/config.go: the configuration, its defaults, loading and validation. A Duration
-- is its number of nanoseconds; an error is a constructor with what its text names.
pub mod Validity
use workloadguard.Base.{
  ℤ, pos, ltb_ℤ, leb_ℤ, Bool, true, false, not, String, List, [], ◌∷◌, Option, none, some, ◌==◌,
  Outcome, ok, err, string_eq, if◌then◌else◌, length, beq_ℕ,
}
use workloadguard.Base.Dict.{Dict, get_or}
use workloadguard.Float.{Float64, fle, float_zero, float_400}

-- A Duration in nanoseconds.
abbrev pub Duration : Type 0
Duration = ℤ

abbrev pub second : Duration
second = pos 1_000_000_000

-- The duration after `UnmarshalText`, and its error; the first argument is `time.ParseDuration`.
unfoldable pub unmarshal_text :
    (String → Outcome Duration) → String → Duration → Duration × Option String
unmarshal_text parse_duration text d = elim (parse_duration text) [
  | err e ↦ (d, some e)
  | ok parsed ↦ (parsed, none)
]

-- The first argument is `time.Duration.String`.
unfoldable pub marshal_text : (Duration → String) → Duration → String
marshal_text duration_text d = duration_text d

pub record Conditions : Type 0 where
  pub min_load1 : Float64
  pub min_load5 : Float64
  pub parent_process : String
  pub exclude_parents : List String

pub record Policy : Type 0 where
  pub process : String
  pub max_count : ℤ
  pub conditions : Option Conditions  -- a pointer, nil where the table is absent
  pub actions : List String
  pub priority : ℤ
  pub enabled : Option Bool  -- a pointer, nil where the key is absent

pub record Config : Type 0 where
  pub periodic_interval : Duration
  pub load_poll_interval : Duration
  pub load_threshold : Float64
  pub log_level : String
  pub log_path : String
  pub diagnostics_path : String
  pub dry_run : Bool
  pub grace_period : Duration
  pub cooldown : Duration
  pub policies : Dict String Policy

unfoldable pub is_enabled : Policy → Bool
is_enabled p = elim p.enabled [ none ↦ true | some b ↦ b ]

unfoldable pub default_config : Config
default_config = record {
  periodic_interval = pos 60_000_000_000;
  load_poll_interval = pos 5_000_000_000;
  load_threshold = float_400;
  log_level = "info";
  log_path = "";
  diagnostics_path = "";
  dry_run = false;
  grace_period = pos 3_000_000_000;
  cooldown = pos 60_000_000_000;
  policies = [];
}

-- What `os.ReadFile` returns.
pub data ReadResult : Type 0 where
  contents : String → ReadResult
  not_exist : ReadResult
  unreadable : String → ReadResult

pub data LoadResult : Type 0 where
  loaded : Config → LoadResult
  read_failed : String → LoadResult
  parse_failed : String → LoadResult

-- What `toml.Unmarshal` returns: the configuration it has filled in, or an error.
pub data Unmarshalled : Type 0 where
  filled : Config → Unmarshalled
  malformed : String → Unmarshalled

abbrev after_unmarshal : Unmarshalled → LoadResult
after_unmarshal (filled cfg) = loaded cfg
after_unmarshal (malformed e) = parse_failed e

abbrev after_read : (String → Config → Unmarshalled) → ReadResult → LoadResult
after_read unmarshal (contents text) = after_unmarshal (unmarshal text default_config)
after_read unmarshal not_exist = loaded default_config
after_read unmarshal (unreadable e) = read_failed e

-- The file system and the TOML library are the first two arguments.
unfoldable pub load : (String → ReadResult) → (String → Config → Unmarshalled) → String → LoadResult
load read_file unmarshal path = after_read unmarshal (read_file path)

pub data ConfigError : Type 0 where
  periodic_interval_short load_poll_interval_short : ConfigError
  load_threshold_not_positive grace_period_negative : ConfigError
  process_required max_count_not_positive action_required : String → ConfigError
  unknown_action : String → String → ConfigError

abbrev pub valid_actions : Dict String Bool
valid_actions =
    ("log", true)
    ∷ ("notify", true)
    ∷ ("terminate", true)
    ∷ ("diagnose", true)
    ∷ ("sample", true)
    ∷ ("spindump", true)
    ∷ []

-- `validActions[action]`
unfoldable pub is_valid_action : String → Bool
is_valid_action action = get_or action false valid_actions

-- the loop over `p.Actions`
unfoldable pub check_actions : String → List String → Option ConfigError
check_actions name [] = none
check_actions name (action ∷ actions) =
    let rest = check_actions name actions in
    if not (is_valid_action action) then some (unknown_action name action) else rest

unfoldable pub validate_policy : String → Policy → Option ConfigError
unfolding check_actions
validate_policy name p =
    if p.process == ""
    then some (process_required name)
    else if leb_ℤ p.max_count (pos 0)
    then some (max_count_not_positive name)
    else if beq_ℕ (length p.actions) 0
    then some (action_required name)
    else check_actions name p.actions

-- the loop over `cfg.Policies`, which returns the first error
unfoldable pub validate_policies : Dict String Policy → Option ConfigError
validate_policies [] = none
validate_policies ((name, policy) ∷ rest) =
    let later = validate_policies rest in
    elim (validate_policy name policy) [ none ↦ later | some e ↦ some e ]

unfoldable pub validate : Config → Option ConfigError
validate cfg =
    if ltb_ℤ cfg.periodic_interval second
    then some periodic_interval_short
    else if ltb_ℤ cfg.load_poll_interval second
    then some load_poll_interval_short
    else if fle cfg.load_threshold float_zero
    then some load_threshold_not_positive
    else if ltb_ℤ cfg.grace_period (pos 0)
    then some grace_period_negative
    else validate_policies cfg.policies
