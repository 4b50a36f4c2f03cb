-- ===== src/Client/Memory.antt =====
-- A cluster held in memory: the client at which the theorems are instantiated. Every call succeeds
-- where the API server has no reason to refuse it.
pub mod Lawfulness
use hackaway_repo.Base.{
  ℕ, String, ◌≡◌, ◌≢◌, refl, ◌⊎◌, inl, inr, arith, Bool, true, false, ◌==◌, ◌&&◌, ◌||◌, eq_iff,
  if◌then◌else◌, Option, none, some, List, [], ◌∷◌, Ordering, compare, nonempty, Bool-cases,
  Option-cases, subst, contains,
}
use hackaway_repo.Kube.Objects.{ConfigMap, Deployment, Service, Pvc, Pod, ObjectMeta, Quantity}
use hackaway_repo.V1.Agent.{ClawAgent}
use hackaway_repo.V1.Channel.{ClawChannel}
use hackaway_repo.V1.Gateway.{ClawGateway}
use hackaway_repo.V1.Policy.{ClawPolicy}
use hackaway_repo.V1.SkillSet.{ClawSkillSet}
use hackaway_repo.V1.Observability.{ClawObservability}
use hackaway_repo.Client.{
  Kind, config_map, deployment, service, pvc, pod, agent, channel, gateway, policy, skill_set,
  observability, Object, Key, key_of, meta_of, Error, not_found, api, Result, ok, err, panic,
  Client,
}
use hackaway_repo.Client.Laws.{Lawful, Healthy, Elsewhere, SameContent}

pub record Memory : Type 0 where
  pub config_maps : Key → Option ConfigMap
  pub deployments : Key → Option Deployment
  pub services : Key → Option Service
  pub pvcs : Key → Option Pvc
  pub pods : Key → Option Pod
  pub agents : Key → Option ClawAgent
  pub channels : Key → Option ClawChannel
  pub gateways : Key → Option ClawGateway
  pub policies : Key → Option ClawPolicy
  pub skill_sets : Key → Option ClawSkillSet
  pub observabilities : Key → Option ClawObservability
  pub agent_list : List ClawAgent
  pub channel_list : List ClawChannel
  pub pod_list : List Pod

abbrev same_key : Key → Key → Bool
same_key x y = x.name == y.name && x.namespace == y.namespace

abbrev store {ℓ} : {A : Type ℓ} → (Key → Option A) → Key → Option A → Key → Option A
store f x v y = if same_key x y then v else f y

find : (k : Kind) → Key → Memory → Option (Object k)
find config_map x m = m.config_maps x
find deployment x m = m.deployments x
find service x m = m.services x
find pvc x m = m.pvcs x
find pod x m = m.pods x
find agent x m = m.agents x
find channel x m = m.channels x
find gateway x m = m.gateways x
find policy x m = m.policies x
find skill_set x m = m.skill_sets x
find observability x m = m.observabilities x

write : (k : Kind) → Key → Option (Object k) → Memory → Memory
write config_map x v m = record m { config_maps = store m.config_maps x v }
write deployment x v m = record m { deployments = store m.deployments x v }
write service x v m = record m { services = store m.services x v }
write pvc x v m = record m { pvcs = store m.pvcs x v }
write pod x v m = record m { pods = store m.pods x v }
write agent x v m = record m { agents = store m.agents x v }
write channel x v m = record m { channels = store m.channels x v }
write gateway x v m = record m { gateways = store m.gateways x v }
write policy x v m = record m { policies = store m.policies x v }
write skill_set x v m = record m { skill_sets = store m.skill_sets x v }
write observability x v m = record m { observabilities = store m.observabilities x v }

same_key_refl : (x : Key) → same_key x x ≡ true
same_key_refl x = ground (arith, eq_iff x.name x.name, eq_iff x.namespace x.namespace)

same_key_eq : (x y : Key) → same_key x y ≡ true → x ≡ y
same_key_eq x y h = ground (arith, eq_iff x.name y.name, eq_iff x.namespace y.namespace)

find-write :
    (k : Kind) (x : Key) (v : Option (Object k)) (m : Memory) → find k x (write k x v m) ≡ v
unfolding find write
find-write config_map x v m = rw (same_key_refl x)
find-write deployment x v m = rw (same_key_refl x)
find-write service x v m = rw (same_key_refl x)
find-write pvc x v m = rw (same_key_refl x)
find-write pod x v m = rw (same_key_refl x)
find-write agent x v m = rw (same_key_refl x)
find-write channel x v m = rw (same_key_refl x)
find-write gateway x v m = rw (same_key_refl x)
find-write policy x v m = rw (same_key_refl x)
find-write skill_set x v m = rw (same_key_refl x)
find-write observability x v m = rw (same_key_refl x)

store_elsewhere {ℓ} :
    {A : Type ℓ} (f : Key → Option A) (x y : Key) (v : Option A) → x ≢ y → store f x v y ≡ f y
store_elsewhere f x y v h = elim (Bool-cases (same_key x y)) [
  | inl e ↦ absurd (h (same_key_eq x y e))
  | inr e ↦ rw e
]

find-write-Elsewhere :
    (k : Kind) (x : Key) (v : Option (Object k)) (m : Memory) (j : Kind) (y : Key)
    → Elsewhere k x j y
    → find j y (write k x v m) ≡ find j y m
unfolding find write
find-write-Elsewhere config_map x v m config_map y (inl h) = absurd (h refl)
find-write-Elsewhere config_map x v m config_map y (inr h) = store_elsewhere m.config_maps x y v h
find-write-Elsewhere deployment x v m deployment y (inl h) = absurd (h refl)
find-write-Elsewhere deployment x v m deployment y (inr h) = store_elsewhere m.deployments x y v h
find-write-Elsewhere service x v m service y (inl h) = absurd (h refl)
find-write-Elsewhere service x v m service y (inr h) = store_elsewhere m.services x y v h
find-write-Elsewhere pvc x v m pvc y (inl h) = absurd (h refl)
find-write-Elsewhere pvc x v m pvc y (inr h) = store_elsewhere m.pvcs x y v h
find-write-Elsewhere pod x v m pod y (inl h) = absurd (h refl)
find-write-Elsewhere pod x v m pod y (inr h) = store_elsewhere m.pods x y v h
find-write-Elsewhere agent x v m agent y (inl h) = absurd (h refl)
find-write-Elsewhere agent x v m agent y (inr h) = store_elsewhere m.agents x y v h
find-write-Elsewhere channel x v m channel y (inl h) = absurd (h refl)
find-write-Elsewhere channel x v m channel y (inr h) = store_elsewhere m.channels x y v h
find-write-Elsewhere gateway x v m gateway y (inl h) = absurd (h refl)
find-write-Elsewhere gateway x v m gateway y (inr h) = store_elsewhere m.gateways x y v h
find-write-Elsewhere policy x v m policy y (inl h) = absurd (h refl)
find-write-Elsewhere policy x v m policy y (inr h) = store_elsewhere m.policies x y v h
find-write-Elsewhere skill_set x v m skill_set y (inl h) = absurd (h refl)
find-write-Elsewhere skill_set x v m skill_set y (inr h) = store_elsewhere m.skill_sets x y v h
find-write-Elsewhere observability x v m observability y (inl h) = absurd (h refl)
find-write-Elsewhere observability x v m observability y (inr h) =
    store_elsewhere m.observabilities x y v h
find-write-Elsewhere _ x v m _ y h = refl

abbrev found {ℓ} : {A : Type ℓ} → Option A → Result A
found none = err not_found
found (some a) = ok a

-- An object counts only under its own key.
abbrev filed : (k : Kind) → Key → Option (Object k) → Option (Object k)
filed k x none = none
filed k x (some o) = if same_key (key_of k o) x then some o else none

get : (k : Kind) → Key → Memory → Result (Object k)
get k x m = found (filed k x (find k x m))

-- A write that asks that the object is there, or that it is not.
abbrev guarded {ℓ} :
    {A : Type ℓ} → Option A → Bool → Error → Memory → Memory → Result (Unit {0}) × Memory
guarded none true e m m' = (ok tt, m')
guarded none false e m m' = (err e, m)
guarded (some a) true e m m' = (err e, m)
guarded (some a) false e m m' = (ok tt, m')

abbrev held : (k : Kind) → Key → Memory → Option (Object k)
held k x m = filed k x (find k x m)

create : (k : Kind) → Object k → Memory → Result (Unit {0}) × Memory
create k o m =
    guarded (held k (key_of k o) m) true (api "already exists") m (write k (key_of k o) (some o) m)

update : (k : Kind) → Object k → Memory → Result (Unit {0}) × Memory
update k o m = guarded (held k (key_of k o) m) false not_found m (write k (key_of k o) (some o) m)

-- The stored object with the status of the one that is sent.
abbrev pub with_status : (k : Kind) → Object k → Object k → Object k
with_status agent new old = record old { status = new.status }
with_status observability new old = record old { status = new.status }
with_status _ new old = old

abbrev restated : (k : Kind) → Object k → Option (Object k) → Memory → Result (Unit {0}) × Memory
restated k o none m = (err not_found, m)
restated k o (some old) m = (ok tt, write k (key_of k o) (some (with_status k o old)) m)

update_status : (k : Kind) → Object k → Memory → Result (Unit {0}) × Memory
update_status k o m = restated k o (held k (key_of k o) m) m

delete : (k : Kind) → Key → Memory → Result (Unit {0}) × Memory
delete k x m = guarded (held k x m) false not_found m (write k x none m)

abbrev refer : ObjectMeta → ObjectMeta → Result ObjectMeta
refer owner m = ok (record m {
  owner_references =
      record { kind = "ClawAgent"; name = owner.name; uid = owner.uid; controller = true }
      ∷ m.owner_references;
})

-- Three sizes of claims.
abbrev gibibytes : Quantity → ℕ
gibibytes q =
    if q == "10Gi" then 10 else (if q == "20Gi" then 20 else (if q == "5Gi" then 5 else 0))

abbrev quantities : List String
quantities = "2Gi" ∷ "4Gi" ∷ "5Gi" ∷ "10Gi" ∷ "20Gi" ∷ "500m" ∷ "2" ∷ []

abbrev parse : String → Option Quantity
parse s = if contains s quantities then some s else none

-- What a list of the namespace gives, of the kinds that are listed.
listed : (k : Kind) → Memory → List (Object k)
listed agent m = m.agent_list
listed channel m = m.channel_list
listed pod m = m.pod_list
listed _ m = []

unfoldable pub memory : Client
unfolding listed get create update update_status delete find write
memory = record {
  State = Memory;
  get = get;
  list = λ k ns m. ok (listed k m);
  list_pods = λ ns label m. ok m.pod_list;
  create = create;
  update = update;
  delete = delete;
  created = λ k o m. o;
  updated = λ k o m. o;
  update_status = update_status;
  set_controller_reference = refer;
  must_parse = parse;
  zero_quantity = "0";
  cmp = λ a b. compare (gibibytes a) (gibibytes b);
}

-- A cluster as a state of that client.
unfoldable pub holding : Memory → memory.State
unfolding memory
holding m = m
