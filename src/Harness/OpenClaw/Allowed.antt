-- ===== src/Harness/OpenClaw/Allowed.antt =====
-- The plugins that are configured and the list of those that may run.
use hackaway_repo.Base.{
  String, ◌≡◌, ◌≢◌, refl, arith, true, false, eq_iff, ◌==◌, ◌||◌, ◌&&◌, not, Option-cases, inl, inr,
  some, none, List, [], ◌∷◌, lookup, insert, lookup-insert, contains, contains-append,
  if◌then◌else◌,
}
use hackaway_repo.V1.Agent.{A2ASpec}
use hackaway_repo.V1.Channel.{ClawChannel}
use hackaway_repo.Harness.Json.{Json}
use hackaway_repo.Harness.OpenClaw.Policy.{Map, put_if}
use hackaway_repo.Harness.OpenClaw.Plugins.{
  channel_plugins, channel_types, plugin_entries, plugin_allow, enabled_entry, configured_entry,
  a2a_config,
}

-- The entry of a channel's plugin, and those that stood before.
lookup-channel_plugins :
    (k : String) (chs : List ClawChannel) (m : Map)
    → lookup k (channel_plugins chs m)
      ≡ (if contains k (channel_types chs) then some enabled_entry else lookup k m)
unfolding channel_plugins channel_types contains
lookup-channel_plugins k [] m = refl
lookup-channel_plugins k (ch ∷ chs) m = ground (
  arith,
  lookup-channel_plugins k chs (insert ch.spec.type enabled_entry m),
  lookup-insert k ch.spec.type enabled_entry m,
  eq_iff ch.spec.type k,
)

module _ (observeclaw : Map) (otlp : String) (chs : List ClawChannel) (a2a : A2ASpec)
    (name ns : String) where
  -- Where an entry comes from.
  lookup-plugin_entries :
      (k : String)
      → lookup k (plugin_entries observeclaw otlp chs a2a name ns) ≡ (
          if a2a.enabled && "a2a-gateway" == k
          then some (configured_entry (a2a_config a2a name ns))
          else (if contains k (channel_types chs)
              then some enabled_entry
              else (if not (otlp == "") && "diagnostics-otel" == k
                  then some enabled_entry
                  else (if "observeclaw" == k then some (configured_entry observeclaw) else none))))
  unfolding plugin_entries lookup
  lookup-plugin_entries k =
      let first : Map = ("observeclaw", configured_entry observeclaw) ∷ [] in
      let second = put_if (not (otlp == "")) "diagnostics-otel" enabled_entry first in
      ground (
        arith,
        lookup-insert k "diagnostics-otel" enabled_entry first,
        lookup-channel_plugins k chs second,
        lookup-insert k "a2a-gateway" (configured_entry (a2a_config a2a name ns))
            (channel_plugins chs second),
      )

  -- Which names the list of plugins that may run holds.
  contains-plugin_allow :
      (k : String)
      → contains k (plugin_allow chs a2a) ≡ (
          "observeclaw" == k
          || contains k (channel_types chs)
          || (a2a.enabled && "a2a-gateway" == k))
  unfolding plugin_allow contains
  contains-plugin_allow k =
      ground (arith, contains-append k ("observeclaw" ∷ channel_types chs) ("a2a-gateway" ∷ []))

  -- Every plugin that may run has an entry.
  pub plugin_allow-configured :
      (k : String)
      → contains k (plugin_allow chs a2a) ≡ true
      → (v : Json) × (lookup k (plugin_entries observeclaw otlp chs a2a name ns) ≡ some v)
  plugin_allow-configured k allowed =
      elim (Option-cases (lookup k (plugin_entries observeclaw otlp chs a2a name ns))) [
        | inl missing ↦ absurd (ground (arith, lookup-plugin_entries k, contains-plugin_allow k))
        | inr found ↦ found
      ]

  -- Every plugin that has an entry may run, but for the telemetry plugin.
  pub plugin_entries-allowed :
      (k : String) {v : Json}
      → k ≢ "diagnostics-otel"
      → lookup k (plugin_entries observeclaw otlp chs a2a name ns) ≡ some v
      → contains k (plugin_allow chs a2a) ≡ true
  plugin_entries-allowed k other found =
      ground (arith, eq_iff "diagnostics-otel" k, lookup-plugin_entries k, contains-plugin_allow k)

  -- The telemetry plugin has an entry when an endpoint is given, and may not run unless a channel
  -- goes by its name.
  pub diagnostics_blocked :
      otlp ≢ ""
      → contains "diagnostics-otel" (channel_types chs) ≡ false
      → (lookup "diagnostics-otel" (plugin_entries observeclaw otlp chs a2a name ns)
          ≡ some enabled_entry)
        × (contains "diagnostics-otel" (plugin_allow chs a2a) ≡ false)
  diagnostics_blocked given unnamed = ground (
    arith,
    eq_iff otlp "",
    lookup-plugin_entries "diagnostics-otel",
    contains-plugin_allow "diagnostics-otel",
  )
