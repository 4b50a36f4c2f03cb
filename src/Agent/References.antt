-- ===== src/Agent/References.antt =====
-- internal/controller/clawagent_controller.go, `Reconcile`: the resources that an agent names. One
-- that is not there is skipped, any other error ends the reconciliation.
use hackaway_repo.Base.{
  pos, is_zero, String, Option, none, some, List, [], ◌∷◌, ◌==◌, concat, decimal, if◌then◌else◌,
}
use hackaway_repo.V1.SkillSet.{SkillEntry}
use hackaway_repo.V1.Gateway.{ClawGateway}
use hackaway_repo.V1.Channel.{ClawChannel, is_enabled}
use hackaway_repo.Client.{
  Kind, channel, observability, skill_set, Object, is_not_found, Client, M, pure, fail, ◌>>=◌,
  attempt, reads,
}
use hackaway_repo.Agent.Volume.{key}

-- http://<gateway>-gateway.<ns>.svc.cluster.local:<port>, the port 8443 by default
unfoldable pub gateway_url_of : Option ClawGateway → String → String → String
gateway_url_of gw name ns = elim gw [
  | none ↦ ""
  | some g ↦
      let port = if is_zero g.spec.port then pos 8443 else g.spec.port in
      concat ("http://" ∷ name ∷ "-gateway." ∷ ns ∷ ".svc.cluster.local:" ∷ decimal port ∷ [])
]

module _ (c : Client) where
  open c use {State, get}

  -- A resource by its name: none where no name is given, or none is there.
  unfoldable pub resolve : (k : Kind) → String → String → M State (Option (Object k))
  resolve k name ns =
      if name == ""
      then pure none
      else attempt (reads (get k (key name ns))) (λ o. pure (some o))
          λ e. if is_not_found e then pure none else fail e

  unfoldable pub resolve_endpoint : String → String → M State String
  unfolding resolve
  resolve_endpoint name ns = do
    found ← resolve observability name ns
    pure (elim found [ none ↦ "" | some o ↦ o.spec.otlp_endpoint ])

  unfoldable pub resolve_skills : String → String → M State (List SkillEntry)
  unfolding resolve
  resolve_skills name ns = do
    found ← resolve skill_set name ns
    pure (elim found [ none ↦ [] | some o ↦ o.spec.skills ])

  -- The channels that are there and enabled. A name is read even when it is empty.
  unfoldable pub resolve_channels : List String → String → M State (List ClawChannel)
  resolve_channels [] ns = pure []
  resolve_channels (name ∷ names) ns =
      let rest = resolve_channels names ns in
      attempt (reads (get channel (key name ns)))
        (λ ch. if is_enabled ch.spec then (rest >>= λ chs. pure (ch ∷ chs)) else rest)
        λ e. if is_not_found e then rest else fail e
