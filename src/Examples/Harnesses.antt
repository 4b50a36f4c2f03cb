-- ===== src/Examples/Harnesses.antt =====
-- The theorems on the configuration of OpenClaw, at an agent with a Slack channel.
use hackaway_repo.Base.{
  ◌≡◌, ◌≢◌, refl, arith, eq_iff, true, false, [], ◌∷◌, none, some, contains, lookup, insert, String,
}
use hackaway_repo.V1.Agent.{A2ASpec}
use hackaway_repo.Harness.Json.{Json}
use hackaway_repo.Harness.OpenClaw.Policy.{budget_defaults}
use hackaway_repo.Harness.OpenClaw.Plugins.{
  channel_plugins, plugin_entries, plugin_allow, enabled_entry, channel_types,
}
use hackaway_repo.Harness.OpenClaw.Allowed.{
  plugin_allow-configured, plugin_entries-allowed, diagnostics_blocked,
}
use hackaway_repo.Harness.OpenClaw.Limits.{PositiveAt, budget_defaults-positive}
use hackaway_repo.Examples.Data.{bot, slack, encoding}

abbrev a2a : A2ASpec
a2a = (bot "persistent").spec.a2a

slack_allowed : contains "slack" (plugin_allow (slack ∷ []) a2a) ≡ true
unfolding contains plugin_allow
slack_allowed = refl

plugin_allow-configured_example :
    (v : Json) × (lookup "slack" (plugin_entries [] "http://tempo:4318" (slack ∷ []) a2a "bot" "ns")
      ≡ some v)
plugin_allow-configured_example =
    plugin_allow-configured [] "http://tempo:4318" (slack ∷ []) a2a "bot" "ns" "slack" slack_allowed

slack_entry :
    lookup "slack" (plugin_entries [] "http://tempo:4318" (slack ∷ []) a2a "bot" "ns")
    ≡ some enabled_entry
unfolding lookup plugin_entries insert channel_plugins
slack_entry = refl

other_plugin : ◌≢◌ {A = String} "slack" "diagnostics-otel"
other_plugin = ground (arith, eq_iff "slack" "diagnostics-otel")

plugin_entries-allowed_example : contains "slack" (plugin_allow (slack ∷ []) a2a) ≡ true
plugin_entries-allowed_example =
    plugin_entries-allowed [] "http://tempo:4318" (slack ∷ []) a2a "bot" "ns" "slack" other_plugin
      slack_entry

given : ◌≢◌ {A = String} "http://tempo:4318" ""
given = ground (arith, eq_iff "http://tempo:4318" "")

unnamed : contains "diagnostics-otel" (channel_types (slack ∷ [])) ≡ false
unfolding contains channel_types
unnamed = refl

diagnostics_blocked_example :
    (lookup "diagnostics-otel" (plugin_entries [] "http://tempo:4318" (slack ∷ []) a2a "bot" "ns")
      ≡ some enabled_entry)
    × (contains "diagnostics-otel" (plugin_allow (slack ∷ []) a2a) ≡ false)
diagnostics_blocked_example =
    diagnostics_blocked [] "http://tempo:4318" (slack ∷ []) a2a "bot" "ns" given unnamed

budget_defaults-positive_example :
    PositiveAt "daily" (budget_defaults encoding none)
    × PositiveAt "monthly" (budget_defaults encoding none)
budget_defaults-positive_example = budget_defaults-positive encoding none
