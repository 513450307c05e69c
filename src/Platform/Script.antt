-- ===== src/Platform/Script.antt =====
-- internal/platform/notify_darwin.go: a notification is a script for osascript.
pub mod Quoting
use Prim.Native.Char.{code}
use Prim.Native.String
use workloadguard.Base.{
  ℕ, String, [], ◌∷◌, Option, none, some, Outcome, ok, err, if◌then◌else◌, beq_ℕ,
}
use workloadguard.Base.Text.{concat}
use workloadguard.System.{Env, M, ◌>>=◌, pure, run_command}

-- `strings.ReplaceAll(s, old, new)`, where `old` is one character
unfoldable pub replace_all : ℕ → String → String → String
replace_all old new String.[] = ""
replace_all old new (String.◌∷◌ c s) =
    let rest = replace_all old new s in
    if beq_ℕ (code c) old then String.◌++◌ new rest else String.◌∷◌ c rest

-- Backslashes first, then quotes.
unfoldable pub escape_apple_script : String → String
escape_apple_script s =
    concat ("\"" ∷ replace_all b'"' "\\\"" (replace_all 92 "\\\\" s) ∷ "\"" ∷ [])

unfoldable pub script : String → String → String
script title message = concat (
    "display notification "
    ∷ escape_apple_script message
    ∷ " with title "
    ∷ escape_apple_script title
    ∷ [])

abbrev error_of : Outcome String → Option String
error_of (ok out) = none
error_of (err e) = some e

unfoldable pub notify : Env → String → String → M (Option String)
notify env title message = do
  result ← run_command env ("/usr/bin/osascript" ∷ "-e" ∷ script title message ∷ [])
  pure (error_of result)
