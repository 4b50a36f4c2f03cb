-- ===== src/Agent/Ensure/Laws.antt =====
-- What a reconciled object holds after `ensureResource`.
use mathlib.Core.Bool.{decide, decide_iff}
use hackaway_repo.Base.{
  nonempty, String, Bool, true, false, ◌&&◌, ◌≡◌, refl, sym, ap, ◌∙◌, subst, inl, inr, arith,
  Bool-cases, if◌then◌else◌,
}
use hackaway_repo.Kube.Objects.{ConfigMap, Deployment, Service, ObjectMeta}
use hackaway_repo.Kube.Defaults.{defaulted}
use hackaway_repo.Kube.Equality.{Labels-discrete, Ports-discrete, DeploymentSpec-discrete}
use hackaway_repo.Client.{
  Kind, config_map, deployment, service, Object, Key, key_of, is_not_found, Result-cases, ok,
  Client, M, pure,
}
use hackaway_repo.Client.Laws.{Lawful, SameContent}
use hackaway_repo.Agent.Ensure.{
  owned_meta, ensure_with, same_data, config_map_drift, deployment_drift, service_drift,
  ensure_config_map, ensure_deployment, ensure_service,
}

-- The cluster holds an object with the content of the given one, under its key.
abbrev pub Holds : (c : Client) (k : Kind) → Object k → c.State → Type 0
Holds c k o s = (o' : Object k) × (c.get k (key_of k o) s ≡ ok o') × SameContent k o o'

pub Holds-carried :
    (c : Client) (k : Kind) (o : Object k) (s t : c.State)
    → c.get k (key_of k o) t ≡ c.get k (key_of k o) s
    → Holds c k o s
    → Holds c k o t
Holds-carried c k o s t same (o', found, kept) = (o', same ∙ found, kept)

module _ (c : Client) (law : Lawful c) where
  pub owned_meta-key :
      (desc : String) (owner m m' : ObjectMeta)
      → owned_meta c desc owner m ≡ ok m'
      → (m'.name ≡ m.name) × (m'.namespace ≡ m.namespace)
  unfolding owned_meta
  owned_meta-key desc owner m m' done = elim (Result-cases (c.set_controller_reference owner m)) [
    | inl (n, e) ↦ law.reference_key owner m m' (ground arith)
    | inr (inl (f, e)) ↦ absurd (ground arith)
    | inr (inr e) ↦ absurd (ground arith)
  ]

  module _ (k : Kind) (desired old new : Object k) (s : c.State) where
    -- An object that is left alone, or written once.
    drift-Holds :
        (b : Bool)
        → c.get k (key_of k desired) s ≡ ok old
        → (b ≡ true → SameContent k desired old)
        → key_of k new ≡ key_of k desired
        → ((o : Object k) → SameContent k new o → SameContent k desired o)
        → ((if b then pure tt else c.update k new) s).0 ≡ ok tt
        → Holds c k desired ((if b then pure tt else c.update k new) s).1
    drift-Holds true found same there content done = (old, found, same refl)
    drift-Holds false found same there content done =
        let (o, stored, kept) = law.get_update k new s done in
        (o, subst (λ x. c.get k x (c.update k new s).1 ≡ ok o) there stored, content o kept)

  found_key :
      (k : Kind) (desired old : Object k) (s : c.State)
      → c.get k (key_of k desired) s ≡ ok old
      → key_of k old ≡ key_of k desired
  found_key k desired old s found = law.get_key k (key_of k desired) s old found

  config_map_drift-Holds :
      (desired old : ConfigMap) (s : c.State)
      → c.get config_map (key_of config_map desired) s ≡ ok old
      → (config_map_drift c desired old s).0 ≡ ok tt
      → Holds c config_map desired (config_map_drift c desired old s).1
  unfolding config_map_drift same_data
  config_map_drift-Holds desired old s found done =
      let entries = Labels-discrete old.entries desired.entries in
      let binary = Labels-discrete old.binary_data desired.binary_data in
      drift-Holds config_map desired old
        (record old { entries = desired.entries; binary_data = desired.binary_data }) s
        ((nonempty desired.entries && decide entries) && decide binary) found
        (λ e.
          (sym ((decide_iff entries).0 (ground arith)), sym ((decide_iff binary).0 (ground arith))))
        (found_key config_map desired old s found) (λ o same. same) done

  deployment_drift-Holds :
      (desired old : Deployment) (s : c.State)
      → c.get deployment (key_of deployment desired) s ≡ ok old
      → (deployment_drift c desired old s).0 ≡ ok tt
      → Holds c deployment desired (deployment_drift c desired old s).1
  unfolding deployment_drift
  deployment_drift-Holds desired old s found done =
      let spec = DeploymentSpec-discrete old.spec desired.spec in
      drift-Holds deployment desired old (record old { spec = desired.spec }) s (decide spec) found
        (λ e. ap defaulted (sym ((decide_iff spec).0 e))) (found_key deployment desired old s found)
        (λ o same. same) done

  service_drift-Holds :
      (desired old : Service) (s : c.State)
      → c.get service (key_of service desired) s ≡ ok old
      → (service_drift c desired old s).0 ≡ ok tt
      → Holds c service desired (service_drift c desired old s).1
  unfolding service_drift
  service_drift-Holds desired old s found done =
      let ports = Ports-discrete old.spec.ports desired.spec.ports in
      let selector = Labels-discrete old.spec.selector desired.spec.selector in
      drift-Holds service desired old
        (record old { spec = record desired.spec { cluster_ip = old.spec.cluster_ip } }) s
        (decide ports && decide selector) found
        (λ e.
          (sym ((decide_iff ports).0 (ground arith)), sym ((decide_iff selector).0 (ground arith))))
        (found_key service desired old s found) (λ o same. same) done

  -- The object, with its new metadata, is created, or the drift of the one that is there is mended.
  ensure_with-Holds :
      (k : Kind) (o o' : Object k) (drift : Object k → M c.State (Unit {0})) (s : c.State)
      → key_of k o' ≡ key_of k o
      → ((q : Object k) → SameContent k o' q → SameContent k o q)
      → ((old : Object k)
          → c.get k (key_of k o) s ≡ ok old
          → (drift old s).0 ≡ ok tt
          → Holds c k o (drift old s).1)
      → (ensure_with c k o' drift s).0 ≡ ok tt
      → Holds c k o (ensure_with c k o' drift s).1
  unfolding ensure_with
  ensure_with-Holds k o o' drift s same content mends done =
      elim (Result-cases (c.get k (key_of k o') s)) [
        | inl (old, found) ↦
            rw found (mends old (subst (λ x. c.get k x s ≡ ok old) same found) (rw found at done))
        | inr (inl (e, failed)) ↦ elim (Bool-cases (is_not_found e)) [
          | inl gone ↦
              let (q, stored, kept) = law.get_create k o' s (rw (failed, gone) at done) in
              rw (failed, gone)
                (q, subst (λ x. c.get k x (c.create k o' s).1 ≡ ok q) same stored, content q kept)
          | inr other ↦ absurd (ground arith)
        ]
        | inr (inr stopped) ↦ absurd (ground arith)
      ]

  pub meta_key :
      (m m' : ObjectMeta)
      → (m'.name ≡ m.name) × (m'.namespace ≡ m.namespace)
      → Path Key
          (record { name = m'.name; namespace = m'.namespace })
          (record { name = m.name; namespace = m.namespace })
  meta_key m m' (n, ns) = cc

  module _ (owner : ObjectMeta) (desc : String) (s : c.State) where
    -- With a lawful client, a call that succeeds leaves a config map under the given name with the
    -- wanted entries and binary data.
    pub ensure_config_map-Holds :
        (o : ConfigMap)
        → (ensure_config_map c owner o desc s).0 ≡ ok tt
        → Holds c config_map o (ensure_config_map c owner o desc s).1
    unfolding ensure_config_map
    ensure_config_map-Holds o done = elim (Result-cases (owned_meta c desc owner o.meta)) [
      | inl (m, named) ↦ rw named (
          ensure_with-Holds config_map o (record o { meta = m }) (config_map_drift c o) s
            (meta_key o.meta m (owned_meta-key desc owner o.meta m named)) (λ q h. h)
            (λ old. config_map_drift-Holds o old s) (rw named at done))
      | inr (inl (e, failed)) ↦ absurd (ground arith)
      | inr (inr stopped) ↦ absurd (ground arith)
    ]

    -- With a lawful client, a call that succeeds leaves a deployment under the given name with the
    -- wanted spec, but for the defaults of the server.
    pub ensure_deployment-Holds :
        (o : Deployment)
        → (ensure_deployment c owner o desc s).0 ≡ ok tt
        → Holds c deployment o (ensure_deployment c owner o desc s).1
    unfolding ensure_deployment
    ensure_deployment-Holds o done = elim (Result-cases (owned_meta c desc owner o.meta)) [
      | inl (m, named) ↦ rw named (
          ensure_with-Holds deployment o (record o { meta = m }) (deployment_drift c o) s
            (meta_key o.meta m (owned_meta-key desc owner o.meta m named)) (λ q h. h)
            (λ old. deployment_drift-Holds o old s) (rw named at done))
      | inr (inl (e, failed)) ↦ absurd (ground arith)
      | inr (inr stopped) ↦ absurd (ground arith)
    ]

    -- With a lawful client, a call that succeeds leaves a service under the given name with the
    -- wanted ports and selector.
    pub ensure_service-Holds :
        (o : Service)
        → (ensure_service c owner o desc s).0 ≡ ok tt
        → Holds c service o (ensure_service c owner o desc s).1
    unfolding ensure_service
    ensure_service-Holds o done = elim (Result-cases (owned_meta c desc owner o.meta)) [
      | inl (m, named) ↦ rw named (
          ensure_with-Holds service o (record o { meta = m }) (service_drift c o) s
            (meta_key o.meta m (owned_meta-key desc owner o.meta m named)) (λ q h. h)
            (λ old. service_drift-Holds o old s) (rw named at done))
      | inr (inl (e, failed)) ↦ absurd (ground arith)
      | inr (inr stopped) ↦ absurd (ground arith)
    ]
