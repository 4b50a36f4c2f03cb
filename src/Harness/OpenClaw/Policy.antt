-- ===== src/Harness/OpenClaw/Policy.antt =====
-- internal/harness/openclaw.go, `buildObserveclawConfig`: the configuration of the observeclaw plugin
-- from the policy and the gateway.
use hackaway_repo.Base.{
  ℤ, is_pos, String, Bool, Option, none, some, List, [], ◌∷◌, ◌++◌, insert, ◌==◌, not, append,
  if◌then◌else◌,
}
use hackaway_repo.V1.Agent.{ClawAgent}
use hackaway_repo.V1.Policy.{ClawPolicy}
use hackaway_repo.V1.Gateway.{ClawGateway}
use hackaway_repo.Harness.Json.{Json, int, float, str, num, Encoding}

abbrev pub Map : Type 0
Map = List (String × Json)

-- if b { m[k] = v }
abbrev pub put_if : Bool → String → Json → Map → Map
put_if b k v m = if b then insert k v m else m

-- if s != "" { m[k] = s }
abbrev pub put_text : String → String → Map → Map
put_text k s m = put_if (not (s == "")) k (str s) m

-- if n > 0 { m[k] = n }
abbrev pub put_pos : String → ℤ → Map → Map
put_pos k n m = put_if (is_pos n) k (int n) m

abbrev pub or_default : String → String → String
or_default s d = if s == "" then d else s

-- The budget of the policy over the defaults.
unfoldable pub put_warn_at : Encoding → String → Map → Map
put_warn_at e s m =
    if s == ""
    then m
    else elim (e.parse_float s) [ none ↦ m | some f ↦ insert "warnAt" (float f) m ]

abbrev pub initial_budget : Map
initial_budget = ("daily", num 100) ∷ ("monthly", num 2000) ∷ ("warnAt", float "0.8") ∷ []

unfoldable pub budget_defaults : Encoding → Option ClawPolicy → Map
budget_defaults e none = initial_budget
budget_defaults e (some p) =
    put_warn_at e p.spec.budget.warn_at
      (put_pos "monthly" p.spec.budget.monthly (put_pos "daily" p.spec.budget.daily initial_budget))

unfoldable pub downgrade_model : Option ClawPolicy → String
downgrade_model none = "claude-haiku-4-5"
downgrade_model (some p) = or_default p.spec.budget.downgrade_model "claude-haiku-4-5"

unfoldable pub downgrade_provider : Option ClawPolicy → String
downgrade_provider none = "anthropic"
downgrade_provider (some p) = or_default p.spec.budget.downgrade_provider "anthropic"

unfoldable pub tool_allow : Option ClawPolicy → List String
tool_allow none = []
tool_allow (some p) = p.spec.tool_policy.allow

-- What is denied once credentials are mounted.
unfoldable pub credential_denials : String → List String
credential_denials home_path =
    append home_path "/credentials/*"
    ∷ "cat.*credentials"
    ∷ "grep.*credentials"
    ∷ "head.*credentials"
    ∷ "tail.*credentials"
    ∷ "less.*credentials"
    ∷ "base64.*credentials"
    ∷ []

unfoldable pub policy_deny : Option ClawPolicy → List String
policy_deny none = []
policy_deny (some p) = p.spec.tool_policy.deny

unfoldable pub tool_deny : String → ClawAgent → Option ClawPolicy → List String
unfolding policy_deny
tool_deny home_path agent policy =
    if agent.spec.credentials_secret == ""
    then policy_deny policy
    else policy_deny policy ++ credential_denials home_path

abbrev pub initial_anomaly : Map
initial_anomaly =
    ("spendSpikeMultiplier", num 3)
    ∷ ("idleBurnMinutes", num 10)
    ∷ ("errorLoopThreshold", num 10)
    ∷ ("tokenInflationMultiplier", num 2)
    ∷ ("checkIntervalSeconds", num 30)
    ∷ []

unfoldable pub anomaly_config : Option ClawGateway → Map
anomaly_config none = initial_anomaly
anomaly_config (some g) = put_pos "checkIntervalSeconds" g.spec.anomaly.check_interval_seconds (
    put_pos "tokenInflationMultiplier" g.spec.anomaly.token_inflation_multiplier (
      put_pos "errorLoopThreshold" g.spec.anomaly.error_loop_threshold (
        put_pos "idleBurnMinutes" g.spec.anomaly.idle_burn_minutes
          (put_pos "spendSpikeMultiplier" g.spec.anomaly.spend_spike_multiplier initial_anomaly))))
