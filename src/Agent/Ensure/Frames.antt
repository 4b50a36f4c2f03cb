-- ===== src/Agent/Ensure/Frames.antt =====
-- What `ensureResource` leaves alone: every object but the one that it is about.
use hackaway_repo.Base.{
  String, Bool, true, false, ◌≡◌, refl, sym, ◌∙◌, subst, inl, inr, arith, if◌then◌else◌,
}
use hackaway_repo.Kube.Objects.{ConfigMap, Deployment, Service, ObjectMeta}
use hackaway_repo.Client.{
  Kind, config_map, deployment, service, Object, Key, key_of, Result-cases, ok, Client, M, pure,
}
use hackaway_repo.Client.Laws.{Lawful, Elsewhere}
use hackaway_repo.Agent.Ensure.{
  owned_meta, ensure_with, config_map_drift, deployment_drift, service_drift, ensure_config_map,
  ensure_deployment, ensure_service,
}
use hackaway_repo.Agent.Ensure.Laws.{owned_meta-key, meta_key}

module _ (c : Client) (law : Lawful c) (k j : Kind) (x : Key) where
  -- A write of an object that goes by the key of the wanted one.
  drift-frame :
      (b : Bool) (desired new old : Object k) (s : c.State)
      → Elsewhere k (key_of k desired) j x
      → key_of k new ≡ key_of k old
      → c.get k (key_of k desired) s ≡ ok old
      → c.get j x ((if b then pure tt else c.update k new) s).1 ≡ c.get j x s
  drift-frame true desired new old s other same found = refl
  drift-frame false desired new old s other same found = law.update_elsewhere k new s j x (
      subst (λ y. Elsewhere k y j x) (sym (same ∙ law.get_key k (key_of k desired) s old found))
        other)

  ensure_with-frame :
      (o o' : Object k) (drift : Object k → M c.State (Unit {0})) (s : c.State)
      → Elsewhere k (key_of k o) j x
      → key_of k o' ≡ key_of k o
      → ((old : Object k)
          → c.get k (key_of k o) s ≡ ok old
          → c.get j x (drift old s).1 ≡ c.get j x s)
      → c.get j x (ensure_with c k o' drift s).1 ≡ c.get j x s
  unfolding ensure_with
  ensure_with-frame o o' drift s other same mends = elim (Result-cases (c.get k (key_of k o') s)) [
    | inl (old, found) ↦ rw found (mends old (subst (λ y. c.get k y s ≡ ok old) same found))
    | inr (inl (e, failed)) ↦
        ground
          (arith, law.create_elsewhere k o' s j x (subst (λ y. Elsewhere k y j x) (sym same) other))
    | inr (inr stopped) ↦ ground arith
  ]

module _ (c : Client) (law : Lawful c) (j : Kind) (x : Key) (owner : ObjectMeta) (desc : String)
    (s : c.State) where
  pub ensure_config_map-frame :
      (o : ConfigMap)
      → Elsewhere config_map (key_of config_map o) j x
      → c.get j x (ensure_config_map c owner o desc s).1 ≡ c.get j x s
  unfolding ensure_config_map config_map_drift
  ensure_config_map-frame o other = elim (Result-cases (owned_meta c desc owner o.meta)) [
    | inl (m, named) ↦ rw named (
        ensure_with-frame c law config_map j x o (record o { meta = m }) (config_map_drift c o) s
          other (meta_key c law o.meta m (owned_meta-key c law desc owner o.meta m named))
          (λ old.
            drift-frame c law config_map j x _ o
              (record old { entries = o.entries; binary_data = o.binary_data }) old s other refl))
    | inr (inl (e, failed)) ↦ ground arith
    | inr (inr stopped) ↦ ground arith
  ]

  pub ensure_deployment-frame :
      (o : Deployment)
      → Elsewhere deployment (key_of deployment o) j x
      → c.get j x (ensure_deployment c owner o desc s).1 ≡ c.get j x s
  unfolding ensure_deployment deployment_drift
  ensure_deployment-frame o other = elim (Result-cases (owned_meta c desc owner o.meta)) [
    | inl (m, named) ↦ rw named (
        ensure_with-frame c law deployment j x o (record o { meta = m }) (deployment_drift c o) s
          other (meta_key c law o.meta m (owned_meta-key c law desc owner o.meta m named))
          (λ old.
            drift-frame c law deployment j x _ o (record old { spec = o.spec }) old s other refl))
    | inr (inl (e, failed)) ↦ ground arith
    | inr (inr stopped) ↦ ground arith
  ]

  pub ensure_service-frame :
      (o : Service)
      → Elsewhere service (key_of service o) j x
      → c.get j x (ensure_service c owner o desc s).1 ≡ c.get j x s
  unfolding ensure_service service_drift
  ensure_service-frame o other = elim (Result-cases (owned_meta c desc owner o.meta)) [
    | inl (m, named) ↦ rw named (
        ensure_with-frame c law service j x o (record o { meta = m }) (service_drift c o) s other
          (meta_key c law o.meta m (owned_meta-key c law desc owner o.meta m named))
          (λ old.
            drift-frame c law service j x _ o
              (record old { spec = record o.spec { cluster_ip = old.spec.cluster_ip } }) old s other
              refl))
    | inr (inl (e, failed)) ↦ ground arith
    | inr (inr stopped) ↦ ground arith
  ]
