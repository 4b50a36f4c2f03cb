-- ===== src/Client/Laws.antt =====
-- What the theorems assume of the API server, as its documentation states it: reads after writes of
-- one client with no other writer in between, and a failed write that changes nothing.
use hackaway_repo.Base.{◌≡◌, ◌≢◌, ◌⊎◌, true, nonempty, [], sym, subst}
use hackaway_repo.Kube.Objects.{ObjectMeta}
use hackaway_repo.Kube.Defaults.{defaulted}
use hackaway_repo.Client.{
  Kind, config_map, deployment, service, pvc, pod, agent, channel, gateway, policy, skill_set,
  observability, Object, Key, key_of, Error, not_found, is_not_found, ok, err, Client,
}

-- What a stored object keeps of the object that was written: of a deployment the whole spec, but for
-- the defaults that the server fills in.
abbrev pub SameContent : (k : Kind) → Object k → Object k → Type 0
SameContent config_map a b = (a.entries ≡ b.entries) × (a.binary_data ≡ b.binary_data)
SameContent deployment a b = defaulted a.spec ≡ defaulted b.spec
SameContent service a b = (a.spec.ports ≡ b.spec.ports) × (a.spec.selector ≡ b.spec.selector)
SameContent pvc a b =
    (a.requests ≡ b.requests) × (a.meta.owner_references ≡ b.meta.owner_references)
SameContent pod a b = a.spec ≡ b.spec
SameContent agent a b = a.spec ≡ b.spec
SameContent channel a b = a.spec ≡ b.spec
SameContent gateway a b = a.spec ≡ b.spec
SameContent policy a b = a.spec ≡ b.spec
SameContent skill_set a b = a.spec ≡ b.spec
SameContent observability a b = a.spec ≡ b.spec

-- What a write of the status keeps.
abbrev pub SameStatus : (k : Kind) → Object k → Object k → Type 0
SameStatus agent a b = a.status ≡ b.status
SameStatus observability a b = a.status ≡ b.status
SameStatus _ a b = Unit

-- One object is not the other.
abbrev pub Elsewhere : Kind → Key → Kind → Key → Type 0
Elsewhere k x j y = (k ≢ j) ⊎ (x ≢ y)

-- The server answers that the object is not there.
abbrev pub Missing : (c : Client) → Kind → Key → c.State → Type 0
Missing c k x s = (e : Error) × (c.get k x s ≡ err e) × (is_not_found e ≡ true)

pub record Lawful (c : Client) : Type 0 where
  pub get_key :
      (k : Kind) (x : Key) (s : c.State) (o : Object k) → c.get k x s ≡ ok o → key_of k o ≡ x
  pub get_create :
      (k : Kind) (o : Object k) (s : c.State)
      → (c.create k o s).0 ≡ ok tt
      → (o' : Object k) × (c.get k (key_of k o) (c.create k o s).1 ≡ ok o') × SameContent k o o'
  pub get_update :
      (k : Kind) (o : Object k) (s : c.State)
      → (c.update k o s).0 ≡ ok tt
      → (o' : Object k) × (c.get k (key_of k o) (c.update k o s).1 ≡ ok o') × SameContent k o o'
  pub get_update_status :
      (k : Kind) (o : Object k) (s : c.State)
      → (c.update_status k o s).0 ≡ ok tt
      → (o' : Object k) × (c.get k (key_of k o) (c.update_status k o s).1 ≡ ok o')
        × SameStatus k o o'
  -- A write of the status, whatever its outcome, keeps the rest of the object that is there.
  pub update_status_keeps :
      (k : Kind) (o old : Object k) (s : c.State)
      → c.get k (key_of k o) s ≡ ok old
      → (o' : Object k) × (c.get k (key_of k o) (c.update_status k o s).1 ≡ ok o')
        × SameContent k old o'
  pub get_delete :
      (k : Kind) (x : Key) (s : c.State)
      → (c.delete k x s).0 ≡ ok tt
      → c.get k x (c.delete k x s).1 ≡ err not_found
  pub delete_missing :
      (k : Kind) (x : Key) (s : c.State) (e : Error)
      → (c.delete k x s).0 ≡ err e
      → is_not_found e ≡ true
      → Missing c k x (c.delete k x s).1
  pub create_elsewhere :
      (k : Kind) (o : Object k) (s : c.State) (j : Kind) (y : Key)
      → Elsewhere k (key_of k o) j y
      → c.get j y (c.create k o s).1 ≡ c.get j y s
  pub update_elsewhere :
      (k : Kind) (o : Object k) (s : c.State) (j : Kind) (y : Key)
      → Elsewhere k (key_of k o) j y
      → c.get j y (c.update k o s).1 ≡ c.get j y s
  pub delete_elsewhere :
      (k : Kind) (x : Key) (s : c.State) (j : Kind) (y : Key)
      → Elsewhere k x j y
      → c.get j y (c.delete k x s).1 ≡ c.get j y s
  pub update_status_elsewhere :
      (k : Kind) (o : Object k) (s : c.State) (j : Kind) (y : Key)
      → Elsewhere k (key_of k o) j y
      → c.get j y (c.update_status k o s).1 ≡ c.get j y s
  pub create_exists :
      (k : Kind) (o : Object k) (s : c.State) (old : Object k)
      → c.get k (key_of k o) s ≡ ok old
      → (c.create k o s).1 ≡ s
  pub update_failed :
      (k : Kind) (o : Object k) (s : c.State) → (c.update k o s).0 ≢ ok tt → (c.update k o s).1 ≡ s
  pub reference_key :
      (owner m m' : ObjectMeta)
      → c.set_controller_reference owner m ≡ ok m'
      → (m'.name ≡ m.name) × (m'.namespace ≡ m.namespace)
  pub reference_owned :
      (owner m m' : ObjectMeta)
      → c.set_controller_reference owner m ≡ ok m'
      → nonempty m'.owner_references ≡ true

-- A client whose calls succeed where the API server has no reason to refuse them.
pub record Healthy (c : Client) : Type 0 where
  pub reads :
      (k : Kind) (x : Key) (s : c.State)
      → ((o : Object k) × (c.get k x s ≡ ok o)) ⊎ (c.get k x s ≡ err not_found)
  pub creates :
      (k : Kind) (o : Object k) (s : c.State)
      → c.get k (key_of k o) s ≡ err not_found
      → (c.create k o s).0 ≡ ok tt
  pub updates :
      (k : Kind) (o old : Object k) (s : c.State)
      → c.get k (key_of k o) s ≡ ok old
      → (c.update k o s).0 ≡ ok tt
  pub deletes :
      (k : Kind) (x : Key) (s : c.State) (old : Object k)
      → c.get k x s ≡ ok old
      → (c.delete k x s).0 ≡ ok tt
  pub references :
      (owner m : ObjectMeta)
      → m.owner_references ≡ []
      → (m' : ObjectMeta) × (c.set_controller_reference owner m ≡ ok m')

module _ (c : Client) (law : Lawful c) (healthy : Healthy c) where
  -- What a healthy client reads back, by the key of the object.
  pub stored_update :
      (k : Kind) (o old : Object k) (x : Key) (s : c.State)
      → key_of k o ≡ x
      → c.get k x s ≡ ok old
      → (o' : Object k) × ((c.update k o s).0 ≡ ok tt)
        × (c.get k x (c.update k o s).1 ≡ ok o')
        × SameContent k o o'
  stored_update k o old x s same found =
      let done = healthy.updates k o old s (subst (λ y. c.get k y s ≡ ok old) (sym same) found) in
      let (o', stored, kept) = law.get_update k o s done in
      (o', done, subst (λ y. c.get k y (c.update k o s).1 ≡ ok o') same stored, kept)

  pub stored_create :
      (k : Kind) (o : Object k) (x : Key) (s : c.State)
      → key_of k o ≡ x
      → c.get k x s ≡ err not_found
      → (o' : Object k) × ((c.create k o s).0 ≡ ok tt)
        × (c.get k x (c.create k o s).1 ≡ ok o')
        × SameContent k o o'
  stored_create k o x s same absent =
      let done =
        healthy.creates k o s (subst (λ y. c.get k y s ≡ err not_found) (sym same) absent) in
      let (o', stored, kept) = law.get_create k o s done in
      (o', done, subst (λ y. c.get k y (c.create k o s).1 ≡ ok o') same stored, kept)
