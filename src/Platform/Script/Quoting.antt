-- ===== src/Platform/Script/Quoting.antt =====
-- `escapeAppleScript` (internal/platform/notify_darwin.go) against a reader of quoted texts: a quote
-- ends the text, and a backslash stands before a quote or a backslash that belongs to it.
use Prim.Native.Char.{Char, code}
use Prim.Native.String
use text.Mathlib.TextEquality.{Char-path}
use text.Mathlib.TextLemmas.{nil-append, cons-append, append-nil, append_assoc}
use workloadguard.Base.{
  Bool, true, false, ◌||◌, String, Option, none, some, ◌≡◌, refl, ap, ◌∙◌, sym, if◌then◌else◌,
  beq_ℕ, Bool-cases, inl, inr, arith,
}
use workloadguard.Platform.Script.{replace_all, escape_apple_script, script}

abbrev add_char : Char → Option (String × String) → Option (String × String)
add_char c none = none
add_char c (some (s, rest)) = some (String.◌∷◌ c s, rest)

-- What follows an opening quote: the text, and what follows its closing quote. The flag is set
-- after a backslash.
unfoldable pub read_body : Bool → String → Option (String × String)
read_body escaping String.[] = none
read_body true (String.◌∷◌ c s) =
    let more = add_char c (read_body false s) in
    if beq_ℕ (code c) b'"' || beq_ℕ (code c) 92 then more else none
read_body false (String.◌∷◌ c s) =
    let escaped = read_body true s in
    let more = add_char c (read_body false s) in
    if beq_ℕ (code c) b'"' then some ("", s) else if beq_ℕ (code c) 92 then escaped else more

abbrev pub quoted : String → Option (String × String)
quoted String.[] = none
quoted (String.◌∷◌ c s) = if beq_ℕ (code c) b'"' then read_body false s else none

-- The characters that a text is escaped to, one after the other.
unfoldable escaped : String → String
escaped String.[] = ""
escaped (String.◌∷◌ c s) =
    let rest = escaped s in
    if beq_ℕ (code c) 92
    then String.◌∷◌ "\\" (String.◌∷◌ "\\" rest)
    else if beq_ℕ (code c) b'"'
    then String.◌∷◌ "\\" (String.◌∷◌ "\"" rest)
    else String.◌∷◌ c rest

two-append :
    (c d : Char) (s : String)
    → String.◌++◌ (String.◌∷◌ c (String.◌∷◌ d "")) s ≡ String.◌∷◌ c (String.◌∷◌ d s)
two-append c d s = simp (cons-append, nil-append)

slashes-append : (s : String) → String.◌++◌ "\\\\" s ≡ String.◌∷◌ "\\" (String.◌∷◌ "\\" s)
slashes-append s = two-append "\\" "\\" s

slash_quote-append : (s : String) → String.◌++◌ "\\\"" s ≡ String.◌∷◌ "\\" (String.◌∷◌ "\"" s)
slash_quote-append s = two-append "\\" "\"" s

replaced : (s : String) → replace_all b'"' "\\\"" (replace_all 92 "\\\\" s) ≡ escaped s
unfolding replace_all escaped
replaced String.[] = refl
replaced (String.◌∷◌ c s) = elim (Bool-cases (beq_ℕ (code c) 92)) [
  | inl back ↦
      rw (back, slashes-append) (ap (λ t. String.◌∷◌ "\\" (String.◌∷◌ "\\" t)) (replaced s))
  | inr other ↦ elim (Bool-cases (beq_ℕ (code c) b'"')) [
    | inl quote ↦ simp (other, quote, slash_quote-append, replaced s)
    | inr plain ↦ simp (other, plain, replaced s)
  ]
]

read_escaped :
    (s rest : String)
    → read_body false (String.◌++◌ (escaped s) (String.◌∷◌ "\"" rest)) ≡ some (s, rest)
unfolding read_body escaped
read_escaped String.[] rest = rw nil-append refl
read_escaped (String.◌∷◌ c s) rest = elim (Bool-cases (beq_ℕ (code c) 92)) [
  | inl back ↦
      rw (back, cons-append, cons-append, read_escaped s rest)
        (ap (λ d. some (String.◌∷◌ d s, rest)) (Char-path "\\" c (ground (arith, back))))
  | inr other ↦ elim (Bool-cases (beq_ℕ (code c) b'"')) [
    | inl quote ↦
        rw (other, quote, cons-append, cons-append, read_escaped s rest)
          (ap (λ d. some (String.◌∷◌ d s, rest)) (Char-path "\"" c (ground (arith, quote))))
    | inr plain ↦ rw (other, plain, cons-append, plain, other, read_escaped s rest) refl
  ]
]

one-append : (c : Char) (s : String) → String.◌++◌ (String.◌∷◌ c "") s ≡ String.◌∷◌ c s
one-append c s = simp (cons-append, nil-append)

-- What stands quoted is read back, and the reader stops where it ends.
escape_apple_script-quoted :
    (s rest : String) → quoted (String.◌++◌ (escape_apple_script s) rest) ≡ some (s, rest)
unfolding escape_apple_script
escape_apple_script-quoted s rest =
    rw (replaced s, one-append, cons-append, append_assoc, append-nil, one-append)
      (read_escaped s rest)

-- The script of a notification is read back as it was meant, whatever the texts hold: after its
-- first words a quoted text that is the message, then ` with title ` and a quoted text that is the
-- title, and nothing more.
pub script-quoted :
    (title message : String)
    → (first : String) × (second : String) × (script title message
        ≡ String.◌++◌ "display notification " first)
      × (quoted first ≡ some (message, String.◌++◌ " with title " second))
      × (quoted second ≡ some (title, ""))
unfolding script
script-quoted title message = (
  String.◌++◌ (escape_apple_script message)
      (String.◌++◌ " with title " (escape_apple_script title)),
  escape_apple_script title,
  rw append-nil refl,
  escape_apple_script-quoted message _,
  ap quoted (sym (append-nil (escape_apple_script title))) ∙ escape_apple_script-quoted title "",
)
