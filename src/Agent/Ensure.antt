-- ===== src/Agent/Ensure.antt =====
-- internal/controller/clawagent_controller.go, `ensureResource`: an object is created, or brought back
-- to what is wanted where its spec has drifted. One function for each arm of the type switch.
pub mod Laws
pub mod Frames
use mathlib.Core.Bool.{decide}
use hackaway_repo.Base.{
  String, Bool, true, false, ◌&&◌, not, nonempty, concat, [], ◌∷◌, if◌then◌else◌, List,
}
use hackaway_repo.Kube.Objects.{Labels, ConfigMap, Deployment, Service, ObjectMeta}
use hackaway_repo.Kube.Equality.{Labels-discrete, Ports-discrete, DeploymentSpec-discrete}
use hackaway_repo.Client.{
  Kind, config_map, deployment, service, Object, meta_of, Key, key_of, Error, wrap, is_not_found,
  Result, ok, err, panic, Client, M, pure, fail, ◌>>=◌, ◌>>◌, attempt, reads, lift,
}

module _ (c : Client) where
  open c use {State, get, create, update, set_controller_reference}

  -- The new metadata of an object, or the wrapped error.
  pub owned_meta : String → ObjectMeta → ObjectMeta → Result ObjectMeta
  owned_meta desc owner m = elim (set_controller_reference owner m) [
    | ok m' ↦ ok m'
    | err e ↦ err (wrap (concat ("setting owner reference on " ∷ desc ∷ [])) e)
    | panic ↦ panic
  ]

  -- Create the object if it is not there, and hand it to `drift` if it is.
  ensure_with : (k : Kind) → Object k → (Object k → M State (Unit {0})) → M State (Unit {0})
  ensure_with k o drift =
      attempt (reads (get k (key_of k o))) drift λ e. if is_not_found e then create k o else fail e

  -- Data that is made, which DeepEqual tells from the nil that an empty map is read back as: so an empty
  -- one is written at every call. The binary data is nil in every config map that is wanted.
  same_data : Labels → Labels → Bool
  same_data old desired = nonempty desired && decide (Labels-discrete old desired)

  config_map_drift : ConfigMap → ConfigMap → M State (Unit {0})
  unfolding same_data
  config_map_drift desired old =
      if same_data old.entries desired.entries
        && decide (Labels-discrete old.binary_data desired.binary_data)
      then pure tt
      else update config_map
          (record old { entries = desired.entries; binary_data = desired.binary_data })

  deployment_drift : Deployment → Deployment → M State (Unit {0})
  deployment_drift desired old =
      if decide (DeploymentSpec-discrete old.spec desired.spec)
      then pure tt
      else update deployment (record old { spec = desired.spec })

  -- The cluster IP of the old service is kept.
  service_drift : Service → Service → M State (Unit {0})
  service_drift desired old =
      if decide (Ports-discrete old.spec.ports desired.spec.ports)
        && decide (Labels-discrete old.spec.selector desired.spec.selector)
      then pure tt
      else update service
          (record old { spec = record desired.spec { cluster_ip = old.spec.cluster_ip } })

  unfoldable pub ensure_config_map : ObjectMeta → ConfigMap → String → M State (Unit {0})
  unfolding owned_meta ensure_with config_map_drift
  ensure_config_map owner o desc = do
    m ← lift (owned_meta desc owner o.meta)
    ensure_with config_map (record o { meta = m }) (config_map_drift o)

  unfoldable pub ensure_deployment : ObjectMeta → Deployment → String → M State (Unit {0})
  unfolding owned_meta ensure_with deployment_drift
  ensure_deployment owner o desc = do
    m ← lift (owned_meta desc owner o.meta)
    ensure_with deployment (record o { meta = m }) (deployment_drift o)

  unfoldable pub ensure_service : ObjectMeta → Service → String → M State (Unit {0})
  unfolding owned_meta ensure_with service_drift
  ensure_service owner o desc = do
    m ← lift (owned_meta desc owner o.meta)
    ensure_with service (record o { meta = m }) (service_drift o)
