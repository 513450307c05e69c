-- ===== src/Policy/Cedar.antt =====
-- internal/policy/convert.go: the text of the Cedar policies, and the library that reads it.
use workloadguard.Base.{
  ℤ, Bool, String, List, [], ◌∷◌, ◌++◌, Option, none, some, if◌then◌else◌, Outcome, ok, err,
}
use workloadguard.Base.Dict.{Dict}
use workloadguard.Base.Text.{decimal, join, concat}
use workloadguard.Float.{Float64, flt, float_zero, Floats}
use workloadguard.Config.{Policy, Conditions, is_enabled}

-- What the engine asks: the identifiers of principal, action and resource, and the context.
pub record Context : Type 0 where
  pub process_name : String
  pub process_count : ℤ
  pub max_count : ℤ
  pub load1 : ℤ
  pub load5 : ℤ
  pub load15 : ℤ
  pub cpu_count : ℤ

pub record Request : Type 0 where
  pub principal : String × String
  pub action : String × String
  pub resource : String × String
  pub context : Context

-- The Cedar library: it reads a text, and answers a request against what it has read.
pub record Cedar : Type 1 where
  pub PolicySet : Type 0
  pub parse : String → Outcome PolicySet
  pub is_authorized : PolicySet → Request → Bool

abbrev pub default_policy : String
default_policy = concat (
    "\n@id(\"default-permit\")\npermit (\n    principal == WorkloadGuard::\"daemon\",\n"
    ∷ "    action == Action::\"terminate\",\n    resource\n);\n" ∷ [])

module _ (fl : Floats) where
  -- the condition on one load average, `context.load1 >= …` or `context.load5 >= …`
  unfoldable pub load_condition : String → Float64 → List String
  load_condition attribute min_load =
      if flt float_zero min_load
      then concat (attribute ∷ " >= " ∷ decimal (fl.to_centi min_load) ∷ []) ∷ []
      else []

  abbrev load_conditions : Option Conditions → List String
  load_conditions none = []
  load_conditions (some c) =
      load_condition "context.load1" c.min_load1 ++ load_condition "context.load5" c.min_load5

  unfoldable pub when_conditions : Policy → List String
  unfolding load_condition
  when_conditions p =
      concat ("context.process_name == \"" ∷ p.process ∷ "\"" ∷ [])
      ∷ concat ("context.process_count >= " ∷ decimal p.max_count ∷ [])
      ∷ load_conditions p.conditions

  unfoldable pub generate_cedar_policy : String → Policy → String
  unfolding when_conditions
  generate_cedar_policy name p = concat (
      "\n@id(\""
      ∷ name
      ∷ "\")\npermit (\n    principal == WorkloadGuard::\"daemon\",\n"
      ∷ "    action == Action::\"terminate\",\n    resource == Process::\""
      ∷ p.process
      ∷ "\"\n)\nwhen {\n    "
      ∷ join " &&\n        " (when_conditions p)
      ∷ "\n};\n"
      ∷ [])

  -- the loop over the policies, in the order of the map
  unfoldable pub enabled_texts : Dict String Policy → List String
  unfolding is_enabled
  enabled_texts [] = []
  enabled_texts ((name, p) ∷ ps) =
      let rest = enabled_texts ps in
      if is_enabled p then generate_cedar_policy name p ∷ rest else rest

  -- the text that `convertToCedar` hands to the library
  unfoldable pub policy_text : Dict String Policy → String
  unfolding enabled_texts
  policy_text ps = join "\n" (enabled_texts ps ++ default_policy ∷ [])

  unfoldable pub convert_to_cedar : (cedar : Cedar) → Dict String Policy → Outcome (cedar.PolicySet)
  unfolding policy_text
  convert_to_cedar cedar ps = cedar.parse (policy_text ps)

  unfoldable pub validate_cedar_policies : Cedar → Dict String Policy → Option String
  unfolding convert_to_cedar
  validate_cedar_policies cedar ps = elim (convert_to_cedar cedar ps) [
    | ok set ↦ none
    | err e ↦ some e
  ]

  unfoldable pub policy_to_cedar : String → Policy → String
  unfolding generate_cedar_policy
  policy_to_cedar name p = generate_cedar_policy name p

  unfoldable pub policy_set_from_config :
      (cedar : Cedar) → Dict String Policy → Outcome (cedar.PolicySet)
  unfolding convert_to_cedar
  policy_set_from_config cedar ps = convert_to_cedar cedar ps

unfoldable pub generate_cedar_schema : String
generate_cedar_schema = concat (
    "\n" ∷ "namespace WorkloadGuard {\n" ∷ "    entity Daemon;\n" ∷ "}\n" ∷ "\n"
    ∷ "namespace Action {\n" ∷ "    entity Terminate;\n" ∷ "    entity Notify;\n"
    ∷ "    entity Log;\n" ∷ "    entity Diagnose;\n" ∷ "}\n" ∷ "\n" ∷ "namespace Process {\n"
    ∷ "    entity rg;\n" ∷ "    entity node;\n" ∷ "    entity git;\n" ∷ "    entity python;\n"
    ∷ "    entity ruby;\n" ∷ "}\n" ∷ "\n"
    ∷ "// Context attributes available during policy evaluation\n" ∷ "type Context = {\n"
    ∷ "    process_name: String,\n" ∷ "    process_count: Long,\n" ∷ "    max_count: Long,\n"
    ∷ "    load1: Long,      // load * 100 (e.g., 250 = 2.50)\n" ∷ "    load5: Long,\n"
    ∷ "    load15: Long,\n" ∷ "    cpu_count: Long,\n" ∷ "};\n" ∷ [])
