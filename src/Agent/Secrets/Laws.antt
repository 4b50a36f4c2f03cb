-- ===== src/Agent/Secrets/Laws.antt =====
-- Which secrets an agent's container gets, and the tokens of its peers.
use hackaway_repo.Base.{
  String, Bool, true, some, List, [], ◌∷◌, ◌++◌, ◌==◌, ◌||◌, ◌&&◌, not, contains, contains-append,
  NoDuplicates, NoDuplicates-concat, insert, lookup, lookup-insert, ◌≡◌, refl, ap, arith, eq_iff,
  inl, inr, Bool-cases,
}
use hackaway_repo.Kube.Objects.{EnvFromSource}
use hackaway_repo.V1.Agent.{ClawAgent}
use hackaway_repo.V1.Channel.{ClawChannel, default_provider_api_keys_secret, flag}
use hackaway_repo.Agent.Secrets.{
  Injected, nothing_injected, inject_secret, inject_channels, inject_provider, inject_a2a,
  injected_secrets,
}

abbrev pub secret_refs : List EnvFromSource → List String
secret_refs [] = []
secret_refs (e ∷ es) = e.secret_ref ∷ secret_refs es

abbrev pub credential_secrets : List ClawChannel → List String
credential_secrets [] = []
credential_secrets (ch ∷ chs) = ch.spec.credentials_secret ∷ credential_secrets chs

-- The secrets that an agent asks for.
abbrev pub wanted : ClawAgent → String → List ClawChannel → String → Bool
wanted agent gateway_url chs k =
    (not (agent.spec.model.provider == "")
      && gateway_url == ""
      && default_provider_api_keys_secret == k)
    || (contains k (credential_secrets chs)
        || (agent.spec.a2a.enabled && agent.spec.a2a.security_token_secret == k))

secret_refs-append :
    (xs ys : List EnvFromSource) → secret_refs (xs ++ ys) ≡ secret_refs xs ++ secret_refs ys
secret_refs-append [] ys = refl
secret_refs-append (x ∷ xs) ys = ap (λ zs. x.secret_ref ∷ zs) (secret_refs-append xs ys)

-- The map names what the list holds, once each.
abbrev Consistent : Injected → Type 0
Consistent i =
    ((k : String) → flag i.seen k ≡ contains k (secret_refs i.env_from))
    × NoDuplicates (secret_refs i.env_from)

flag-insert :
    (j k : String) (m : List (String × Bool)) → flag (insert k true m) j ≡ (k == j || flag m j)
unfolding flag
flag-insert j k m = ground (arith, lookup-insert j k true m, eq_iff k j)

module _ (name : String) (i : Injected) (c : Consistent i) where
  inject_secret-holds :
      (k : String)
      → contains k (secret_refs (inject_secret name i).env_from)
        ≡ ((name == k && not (k == "")) || contains k (secret_refs i.env_from))
  unfolding inject_secret contains
  inject_secret-holds k = ground (
    arith,
    secret_refs-append i.env_from (record { secret_ref = name; is_optional = some true } ∷ []),
    contains-append k (secret_refs i.env_from) (name ∷ []),
    c.0 name,
    eq_iff name k,
    eq_iff name "",
    eq_iff k "",
  )

  inject_secret-flags :
      (k : String)
      → flag (inject_secret name i).seen k ≡ ((name == k && not (k == "")) || flag i.seen k)
  unfolding inject_secret
  inject_secret-flags k =
      ground (arith, flag-insert k name i.seen, eq_iff name k, eq_iff name "", eq_iff k "")

  inject_secret-once : NoDuplicates (secret_refs (inject_secret name i).env_from)
  unfolding inject_secret
  inject_secret-once = elim (Bool-cases (name == "" || flag i.seen name)) [
    | inl skip ↦ rw skip c.1
    | inr new ↦
        rw
          (
            new,
            secret_refs-append i.env_from
                (record { secret_ref = name; is_optional = some true } ∷ []),
          )
          (NoDuplicates-concat (secret_refs i.env_from) name (ground (arith, c.0 name)) c.1)
  ]

  inject_secret-Consistent : Consistent (inject_secret name i)
  inject_secret-Consistent = (
    (λ k. ground (arith, inject_secret-holds k, inject_secret-flags k, c.0 k)),
    inject_secret-once,
  )

inject_channels-holds :
    (chs : List ClawChannel) (i : Injected)
    → Consistent i
    → Consistent (inject_channels chs i)
      × ((k : String)
          → contains k (secret_refs (inject_channels chs i).env_from) ≡ (
              (contains k (credential_secrets chs) && not (k == ""))
              || contains k (secret_refs i.env_from)))
unfolding inject_channels contains
inject_channels-holds [] i c = (c, λ k. refl)
inject_channels-holds (ch ∷ chs) i c =
    let name = ch.spec.credentials_secret in
    let rest =
      inject_channels-holds chs (inject_secret name i) (inject_secret-Consistent name i c) in
    (rest.0, λ k. ground (arith, rest.1 k, inject_secret-holds name i c k))

nothing-Consistent : Consistent nothing_injected
unfolding flag lookup contains
nothing-Consistent = ((λ k. refl), tt)

inject_provider-holds :
    (provider gateway_url : String)
    → Consistent (inject_provider provider gateway_url nothing_injected)
      × ((k : String)
          → contains k
              (secret_refs (inject_provider provider gateway_url nothing_injected).env_from)
            ≡ (not (provider == "")
                && gateway_url == ""
                && default_provider_api_keys_secret == k
                && not (k == "")))
unfolding inject_provider contains
inject_provider-holds provider gateway_url =
    let secret = default_provider_api_keys_secret in
    let one = inject_secret-Consistent secret nothing_injected nothing-Consistent in
    let holds = inject_secret-holds secret nothing_injected nothing-Consistent in
    elim (Bool-cases (not (provider == "") && gateway_url == "")) [
      | inl e ↦ rw e (one, λ k. ground (arith, holds k, nothing-Consistent.0 k))
      | inr e ↦ rw e (nothing-Consistent, λ k. ground (arith, nothing-Consistent.0 k))
    ]

-- A secret is among those of the container exactly if it has a name and is the provider's (with a
-- provider and no gateway), a channel's, or the A2A token's (with A2A enabled).
pub injected_secrets-wanted :
    (agent : ClawAgent) (gateway_url : String) (chs : List ClawChannel) (k : String)
    → contains k (secret_refs (injected_secrets agent gateway_url chs).env_from)
      ≡ (wanted agent gateway_url chs k && not (k == ""))
unfolding injected_secrets inject_a2a
injected_secrets-wanted agent gateway_url chs k =
    let (c, one) = inject_provider-holds agent.spec.model.provider gateway_url in
    let i = inject_provider agent.spec.model.provider gateway_url nothing_injected in
    let (d, two) = inject_channels-holds chs i c in
    ground (
      arith,
      one k,
      two k,
      inject_secret-holds agent.spec.a2a.security_token_secret (inject_channels chs i) d k,
    )

-- No secret is injected twice.
pub injected_secrets-NoDuplicates :
    (agent : ClawAgent) (gateway_url : String) (chs : List ClawChannel)
    → NoDuplicates (secret_refs (injected_secrets agent gateway_url chs).env_from)
unfolding injected_secrets inject_a2a
injected_secrets-NoDuplicates agent gateway_url chs =
    let (c, _) = inject_provider-holds agent.spec.model.provider gateway_url in
    let i = inject_provider agent.spec.model.provider gateway_url nothing_injected in
    let (d, _) = inject_channels-holds chs i c in
    elim (Bool-cases agent.spec.a2a.enabled) [
      | inl on ↦
          rw on (inject_secret-once agent.spec.a2a.security_token_secret (inject_channels chs i) d)
      | inr off ↦ rw off d.1
    ]
