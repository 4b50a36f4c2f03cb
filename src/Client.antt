-- ===== src/Client.antt =====
-- The client of the API server (sigs.k8s.io/controller-runtime), which the repository does not hold:
-- its operations are the fields of a record that every controller takes as a parameter. A method of
-- a controller is an action of the monad `M`: the cluster before and after, and a result that may
-- be an error or a panic.
pub mod Laws
pub mod Steps
pub mod Frame
pub mod Triple
pub mod Memory
use hackaway_repo.Base.{
  arith, Bool-cases, ◌==◌, ◌&&◌, eq_iff, ap, ◌≢◌, String, Bool, true, false, List, Option, Ordering,
  ◌≡◌, refl, ◌⊎◌, inl, inr,
}
use hackaway_repo.Kube.Objects.{ObjectMeta, Quantity, ConfigMap, Deployment, Service, Pvc, Pod}
use hackaway_repo.V1.Agent.{ClawAgent}
use hackaway_repo.V1.Channel.{ClawChannel}
use hackaway_repo.V1.Gateway.{ClawGateway}
use hackaway_repo.V1.Policy.{ClawPolicy}
use hackaway_repo.V1.SkillSet.{ClawSkillSet}
use hackaway_repo.V1.Observability.{ClawObservability}

pub data Kind : Type 0 where
  config_map deployment service pvc pod : Kind
  agent channel gateway policy skill_set observability : Kind

abbrev pub Object : Kind → Type 0
Object config_map = ConfigMap
Object deployment = Deployment
Object service = Service
Object pvc = Pvc
Object pod = Pod
Object agent = ClawAgent
Object channel = ClawChannel
Object gateway = ClawGateway
Object policy = ClawPolicy
Object skill_set = ClawSkillSet
Object observability = ClawObservability

abbrev pub meta_of : (k : Kind) → Object k → ObjectMeta
meta_of config_map o = o.meta
meta_of deployment o = o.meta
meta_of service o = o.meta
meta_of pvc o = o.meta
meta_of pod o = o.meta
meta_of agent o = o.meta
meta_of channel o = o.meta
meta_of gateway o = o.meta
meta_of policy o = o.meta
meta_of skill_set o = o.meta
meta_of observability o = o.meta

abbrev pub with_meta : (k : Kind) → Object k → ObjectMeta → Object k
with_meta config_map o m = record o { meta = m }
with_meta deployment o m = record o { meta = m }
with_meta service o m = record o { meta = m }
with_meta pvc o m = record o { meta = m }
with_meta pod o m = record o { meta = m }
with_meta agent o m = record o { meta = m }
with_meta channel o m = record o { meta = m }
with_meta gateway o m = record o { meta = m }
with_meta policy o m = record o { meta = m }
with_meta skill_set o m = record o { meta = m }
with_meta observability o m = record o { meta = m }

-- types.NamespacedName
pub record Key : Type 0 where
  pub name : String
  pub namespace : String

abbrev pub key_of : (k : Kind) → Object k → Key
key_of k o = record { name = (meta_of k o).name; namespace = (meta_of k o).namespace }

-- An `error`: the not-found status of the API server, any other of its errors, the controllers' own
-- `errRequeueNeeded`, a message, and `fmt.Errorf("…: %w", err)`.
pub data Error : Type 0 where
  not_found requeue_needed : Error
  api : String → Error
  message : String → Error
  wrap : String → Error → Error

-- apierrors.IsNotFound(err)
abbrev pub is_not_found : Error → Bool
is_not_found not_found = true
is_not_found requeue_needed = false
is_not_found (api s) = false
is_not_found (message s) = false
is_not_found (wrap s e) = is_not_found e

-- errors.Is(err, errRequeueNeeded)
abbrev pub is_requeue : Error → Bool
is_requeue requeue_needed = true
is_requeue not_found = false
is_requeue (api s) = false
is_requeue (message s) = false
is_requeue (wrap s e) = is_requeue e

pub data Result {ℓ} (A : Type ℓ) : Type ℓ where
  ok : A → Result A
  err : Error → Result A
  panic : Result A

pub Result-cases {ℓ} :
    {A : Type ℓ} (r : Result A) → ((a : A) × (r ≡ ok a)) ⊎ ((e : Error) × (r ≡ err e)) ⊎ (r ≡ panic)
Result-cases (ok a) = inl (a, refl)
Result-cases (err e) = inr (inl (e, refl))
Result-cases panic = inr (inr refl)

pub ok-cancel : {A : Type 0} (a b : A) → Path (Result A) (ok a) (ok b) → a ≡ b
ok-cancel a b p = cc

pub Key-cases : (x y : Key) → (x ≡ y) ⊎ (x ≢ y)
Key-cases x y = elim (Bool-cases (x.name == y.name && x.namespace == y.namespace)) [
  | inl same ↦ inl (ground (arith, eq_iff x.name y.name, eq_iff x.namespace y.namespace))
  | inr other ↦ inr (λ same. absurd (
      ground (
        arith,
        eq_iff x.name y.name,
        eq_iff x.namespace y.namespace,
        ap (λ z. z.name) same,
        ap (λ z. z.namespace) same,
      )))
]

pub record Client : Type 1 where
  pub State : Type 0
  pub get : (k : Kind) → Key → State → Result (Object k)
  -- The objects of a namespace, and its pods with a label.
  pub list : (k : Kind) → String → State → Result (List (Object k))
  pub list_pods : String → String × String → State → Result (List Pod)
  pub create : (k : Kind) → Object k → State → Result (Unit {0}) × State
  pub update : (k : Kind) → Object k → State → Result (Unit {0}) × State
  pub delete : (k : Kind) → Key → State → Result (Unit {0}) × State
  -- What the object that is handed to Create, or to Update, is after a success: the call fills it from
  -- the answer of the server.
  pub created : (k : Kind) → Object k → State → Object k
  pub updated : (k : Kind) → Object k → State → Object k
  pub update_status : (k : Kind) → Object k → State → Result (Unit {0}) × State
  -- ctrl.SetControllerReference(owner, obj, scheme): the new metadata of obj
  pub set_controller_reference : ObjectMeta → ObjectMeta → Result ObjectMeta
  -- resource.MustParse, which panics, and Quantity.Cmp
  pub must_parse : String → Option Quantity
  pub zero_quantity : Quantity
  pub cmp : Quantity → Quantity → Ordering

module _ (S : Type 0) where
  abbrev pub M : Type 0 → Type 0
  M A = S → Result A × S

module _ {S : Type 0} where
  abbrev pub pure : {A : Type 0} → A → M S A
  pure a s = (ok a, s)

  abbrev pub fail : {A : Type 0} → Error → M S A
  fail e s = (err e, s)

  infixl 5 ◌>>=◌ ◌>>◌
  abbrev pub ◌>>=◌ : {A B : Type 0} → M S A → (A → M S B) → M S B
  ◌>>=◌ m f s = elim (m s).0 [
    | ok a ↦ f a (m s).1
    | err e ↦ (err e, (m s).1)
    | panic ↦ (panic, (m s).1)
  ]

  abbrev pub ◌>>◌ : {B : Type 0} → M S (Unit {0}) → M S B → M S B
  m >> k = m >>= λ _. k

  -- A call whose error the caller looks at: `err` is handed on as a value.
  abbrev pub attempt : {A B : Type 0} → M S A → (A → M S B) → (Error → M S B) → M S B
  attempt m f g s = elim (m s).0 [
    | ok a ↦ f a (m s).1
    | err e ↦ g e (m s).1
    | panic ↦ (panic, (m s).1)
  ]

  -- A read, which leaves the cluster as it is.
  abbrev pub reads : {A : Type 0} → (S → Result A) → M S A
  reads r s = (r s, s)

  abbrev pub lift : {A : Type 0} → Result A → M S A
  lift r s = (r, s)

  -- fmt.Errorf(msg+": %w", err) around a call
  abbrev pub wrapping : {A : Type 0} → String → M S A → M S A
  wrapping msg m s = elim (m s).0 [
    | ok a ↦ (ok a, (m s).1)
    | err e ↦ (err (wrap msg e), (m s).1)
    | panic ↦ (panic, (m s).1)
  ]
