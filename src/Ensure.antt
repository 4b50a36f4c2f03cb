-- ===== src/Ensure.antt =====
-- internal/controller/clawgateway_controller.go and clawobservability_controller.go, `ensureResource`,
-- of which each has a copy: an object is created if it is not there, and never changed.
pub mod Laws
use hackaway_repo.Base.{String, [], ◌∷◌, concat, if◌then◌else◌}
use hackaway_repo.Kube.Objects.{ObjectMeta}
use hackaway_repo.Client.{
  Kind, Object, meta_of, with_meta, key_of, wrap, is_not_found, Result, ok, err, panic, Client, M,
  pure, fail, ◌>>=◌, attempt, reads, lift,
}

-- The object with its owner, or the wrapped error.
unfoldable pub with_controller :
    (c : Client) (k : Kind) → ObjectMeta → Object k → String → Result (Object k)
with_controller c k owner o desc = elim (c.set_controller_reference owner (meta_of k o)) [
  | ok m ↦ ok (with_meta k o m)
  | err e ↦ err (wrap (concat ("setting owner reference on " ∷ desc ∷ [])) e)
  | panic ↦ panic
]

-- Get, and create on a not-found error.
unfoldable pub create_missing : (c : Client) (k : Kind) → Object k → M c.State (Unit {0})
create_missing c k o =
    attempt (reads (c.get k (key_of k o))) (λ _. pure tt)
      λ e. if is_not_found e then c.create k o else fail e

unfoldable pub ensure_resource :
    (c : Client) (k : Kind) → ObjectMeta → Object k → String → M c.State (Unit {0})
unfolding with_controller create_missing
ensure_resource c k owner o desc = do
  owned ← lift (with_controller c k owner o desc)
  create_missing c k owned
