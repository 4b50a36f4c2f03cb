-- ===== src/Client/Memory/Lawfulness.antt =====
-- The cluster in memory is lawful and healthy.
use hackaway_repo.Base.{
  ◌≡◌, ◌≢◌, refl, ◌⊎◌, inl, inr, arith, true, Option, none, some, Option-cases, subst, sym, ◌∙◌,
}
use hackaway_repo.Client.{
  Kind, config_map, deployment, service, pvc, pod, agent, channel, gateway, policy, skill_set,
  observability, Object, Key, key_of, not_found, is_not_found, Error, api, ok, err, ok-cancel,
}
use hackaway_repo.Client.Laws.{Lawful, Healthy, Elsewhere, SameContent, SameStatus}
use hackaway_repo.Client.Memory.{
  Memory, same_key, same_key_refl, same_key_eq, find, write, find-write, find-write-Elsewhere, get,
  held, with_status, create, update, update_status, delete, memory,
}

same_content : (k : Kind) (o : Object k) → SameContent k o o
same_content config_map o = (refl, refl)
same_content deployment o = refl
same_content service o = (refl, refl)
same_content pvc o = (refl, refl)
same_content pod o = refl
same_content agent o = refl
same_content channel o = refl
same_content gateway o = refl
same_content policy o = refl
same_content skill_set o = refl
same_content observability o = refl

get_key : (k : Kind) (x : Key) (m : Memory) (o : Object k) → get k x m ≡ ok o → key_of k o ≡ x
unfolding get
get_key k x m o h = elim (Option-cases (find k x m)) [
  | inl e ↦ ground arith
  | inr (a, e) ↦
      let kept : (same_key (key_of k a) x ≡ true) × (a ≡ o) = ground arith in
      subst (λ b. key_of k b ≡ x) kept.1 (same_key_eq (key_of k a) x kept.0)
]

get-write :
    (k : Kind) (o : Object k) (m : Memory)
    → get k (key_of k o) (write k (key_of k o) (some o) m) ≡ ok o
unfolding get
get-write k o m = rw (find-write k (key_of k o) (some o) m) (rw (same_key_refl (key_of k o)))

get-write-none : (k : Kind) (x : Key) (m : Memory) → get k x (write k x none m) ≡ err not_found
unfolding get
get-write-none k x m = rw (find-write k x none m)

get-write-Elsewhere :
    (k : Kind) (x : Key) (v : Option (Object k)) (m : Memory) (j : Kind) (y : Key)
    → Elsewhere k x j y
    → get j y (write k x v m) ≡ get j y m
unfolding get
get-write-Elsewhere k x v m j y h = rw (find-write-Elsewhere k x v m j y h)

-- The guarded writes, one by one.
create_cases :
    (k : Kind) (o : Object k) (m : Memory)
    → ((create k o m ≡ (ok tt, write k (key_of k o) (some o) m))
        × (get k (key_of k o) m ≡ err not_found))
      ⊎ ((create k o m ≡ (err (api "already exists"), m))
          × (old : Object k) × (get k (key_of k o) m ≡ ok old))
unfolding create get
create_cases k o m = elim (Option-cases (held k (key_of k o) m)) [
  | inl e ↦ inl (rw e, rw e)
  | inr (a, e) ↦ inr (rw e, a, rw e)
]

update_cases :
    (k : Kind) (o : Object k) (m : Memory)
    → ((update k o m ≡ (ok tt, write k (key_of k o) (some o) m))
        × (old : Object k) × (get k (key_of k o) m ≡ ok old))
      ⊎ ((update k o m ≡ (err not_found, m)) × (get k (key_of k o) m ≡ err not_found))
unfolding update get
update_cases k o m = elim (Option-cases (held k (key_of k o) m)) [
  | inl e ↦ inr (rw e, rw e)
  | inr (a, e) ↦ inl (rw e, a, rw e)
]

delete_cases :
    (k : Kind) (x : Key) (m : Memory)
    → ((delete k x m ≡ (ok tt, write k x none m)) × (old : Object k) × (get k x m ≡ ok old))
      ⊎ ((delete k x m ≡ (err not_found, m)) × (get k x m ≡ err not_found))
unfolding delete get
delete_cases k x m = elim (Option-cases (held k x m)) [
  | inl e ↦ inr (rw e, rw e)
  | inr (a, e) ↦ inl (rw e, a, rw e)
]

get_create :
    (k : Kind) (o : Object k) (m : Memory)
    → (create k o m).0 ≡ ok tt
    → (o' : Object k) × (get k (key_of k o) (create k o m).1 ≡ ok o') × SameContent k o o'
get_create k o m h = elim (create_cases k o m) [
  | inl (e, _) ↦ (o, rw e (get-write k o m), same_content k o)
  | inr (e, _, _) ↦ cc
]

get_update :
    (k : Kind) (o : Object k) (m : Memory)
    → (update k o m).0 ≡ ok tt
    → (o' : Object k) × (get k (key_of k o) (update k o m).1 ≡ ok o') × SameContent k o o'
get_update k o m h = elim (update_cases k o m) [
  | inl (e, _, _) ↦ (o, rw e (get-write k o m), same_content k o)
  | inr (e, _) ↦ cc
]

-- A write of the status keeps the key, the status that is sent, and the rest of what is stored.
with_status-key : (k : Kind) (o old : Object k) → key_of k (with_status k o old) ≡ key_of k old
with_status-key agent o old = refl
with_status-key observability o old = refl
with_status-key _ o old = refl

with_status-SameStatus : (k : Kind) (o old : Object k) → SameStatus k o (with_status k o old)
with_status-SameStatus agent o old = refl
with_status-SameStatus observability o old = refl
with_status-SameStatus _ o old = tt

with_status-SameContent : (k : Kind) (o old : Object k) → SameContent k old (with_status k o old)
with_status-SameContent agent o old = refl
with_status-SameContent observability o old = refl
with_status-SameContent config_map o old = same_content config_map old
with_status-SameContent deployment o old = same_content deployment old
with_status-SameContent service o old = same_content service old
with_status-SameContent pvc o old = same_content pvc old
with_status-SameContent pod o old = refl
with_status-SameContent channel o old = refl
with_status-SameContent gateway o old = refl
with_status-SameContent policy o old = refl
with_status-SameContent skill_set o old = refl

update_status_cases :
    (k : Kind) (o : Object k) (m : Memory)
    → ((old : Object k) × (get k (key_of k o) m ≡ ok old)
        × ((update_status k o m).0 ≡ ok tt)
        × ((update_status k o m).1 ≡ write k (key_of k o) (some (with_status k o old)) m))
      ⊎ ((update_status k o m ≡ (err not_found, m)) × (get k (key_of k o) m ≡ err not_found))
unfolding update_status get
update_status_cases k o m = elim (Option-cases (held k (key_of k o) m)) [
  | inl e ↦ inr (rw e, rw e)
  | inr (a, e) ↦ inl (a, rw e, rw e, rw e)
]

get-with_status :
    (k : Kind) (o old : Object k) (m : Memory)
    → get k (key_of k o) m ≡ ok old
    → get k (key_of k o) (write k (key_of k o) (some (with_status k o old)) m)
      ≡ ok (with_status k o old)
get-with_status k o old m there =
    let new = with_status k o old in
    subst (λ x. get k x (write k x (some new) m) ≡ ok new)
      (with_status-key k o old ∙ get_key k (key_of k o) m old there) (get-write k new m)

get_update_status :
    (k : Kind) (o : Object k) (m : Memory)
    → (update_status k o m).0 ≡ ok tt
    → (o' : Object k) × (get k (key_of k o) (update_status k o m).1 ≡ ok o') × SameStatus k o o'
get_update_status k o m h = elim (update_status_cases k o m) [
  | inl (old, there, _, e) ↦
      (with_status k o old, rw e (get-with_status k o old m there), with_status-SameStatus k o old)
  | inr (e, _) ↦ cc
]

update_status_keeps :
    (k : Kind) (o old : Object k) (m : Memory)
    → get k (key_of k o) m ≡ ok old
    → (o' : Object k) × (get k (key_of k o) (update_status k o m).1 ≡ ok o') × SameContent k old o'
update_status_keeps k o old m h = elim (update_status_cases k o m) [
  | inl (old', there, _, e) ↦
      let same : old' ≡ old = ok-cancel old' old (sym there ∙ h) in
      (
        with_status k o old',
        rw e (get-with_status k o old' m there),
        subst (λ q. SameContent k q (with_status k o old')) same (with_status-SameContent k o old'),
      )
  | inr (e, absent) ↦ absurd (ground arith)
]

update_status-Elsewhere :
    (k : Kind) (o : Object k) (m : Memory) (j : Kind) (y : Key)
    → Elsewhere k (key_of k o) j y
    → get j y (update_status k o m).1 ≡ get j y m
update_status-Elsewhere k o m j y h = elim (update_status_cases k o m) [
  | inl (old, _, _, e) ↦
      rw e (get-write-Elsewhere k (key_of k o) (some (with_status k o old)) m j y h)
  | inr (e, _) ↦ rw e
]

get_delete :
    (k : Kind) (x : Key) (m : Memory)
    → (delete k x m).0 ≡ ok tt
    → get k x (delete k x m).1 ≡ err not_found
get_delete k x m h = elim (delete_cases k x m) [
  | inl (e, _, _) ↦ rw e (get-write-none k x m)
  | inr (e, _) ↦ cc
]

delete_missing :
    (k : Kind) (x : Key) (m : Memory) (e : Error)
    → (delete k x m).0 ≡ err e
    → is_not_found e ≡ true
    → (f : Error) × (get k x (delete k x m).1 ≡ err f) × (is_not_found f ≡ true)
delete_missing k x m e h n = elim (delete_cases k x m) [
  | inl (done, _, _) ↦ cc
  | inr (same, absent) ↦ (not_found, rw same absent, refl)
]

create-Elsewhere :
    (k : Kind) (o : Object k) (m : Memory) (j : Kind) (y : Key)
    → Elsewhere k (key_of k o) j y
    → get j y (create k o m).1 ≡ get j y m
create-Elsewhere k o m j y h = elim (create_cases k o m) [
  | inl (e, _) ↦ rw e (get-write-Elsewhere k (key_of k o) (some o) m j y h)
  | inr (e, _, _) ↦ rw e
]

update-Elsewhere :
    (k : Kind) (o : Object k) (m : Memory) (j : Kind) (y : Key)
    → Elsewhere k (key_of k o) j y
    → get j y (update k o m).1 ≡ get j y m
update-Elsewhere k o m j y h = elim (update_cases k o m) [
  | inl (e, _, _) ↦ rw e (get-write-Elsewhere k (key_of k o) (some o) m j y h)
  | inr (e, _) ↦ rw e
]

delete-Elsewhere :
    (k : Kind) (x : Key) (m : Memory) (j : Kind) (y : Key)
    → Elsewhere k x j y
    → get j y (delete k x m).1 ≡ get j y m
delete-Elsewhere k x m j y h = elim (delete_cases k x m) [
  | inl (e, _, _) ↦ rw e (get-write-Elsewhere k x none m j y h)
  | inr (e, _) ↦ rw e
]

create_exists :
    (k : Kind) (o : Object k) (m : Memory) (old : Object k)
    → get k (key_of k o) m ≡ ok old
    → (create k o m).1 ≡ m
create_exists k o m old h = elim (create_cases k o m) [
  | inl (_, absent) ↦ cc
  | inr (e, _, _) ↦ rw e
]

update_failed :
    (k : Kind) (o : Object k) (m : Memory) → (update k o m).0 ≢ ok tt → (update k o m).1 ≡ m
update_failed k o m h = elim (update_cases k o m) [
  | inl (e, _, _) ↦ absurd (h (rw e))
  | inr (e, _) ↦ rw e
]

pub memory-Lawful : Lawful memory
unfolding memory
memory-Lawful = record {
  get_key = get_key;
  get_create = get_create;
  get_update = get_update;
  get_update_status = get_update_status;
  get_delete = get_delete;
  delete_missing = delete_missing;
  create_elsewhere = create-Elsewhere;
  update_elsewhere = update-Elsewhere;
  delete_elsewhere = delete-Elsewhere;
  update_status_elsewhere = update_status-Elsewhere;
  update_status_keeps = update_status_keeps;
  create_exists = create_exists;
  update_failed = update_failed;
  reference_key = λ owner m m' h. ground arith;
  reference_owned = λ owner m m' h. ground arith;
}

reads :
    (k : Kind) (x : Key) (m : Memory)
    → ((o : Object k) × (get k x m ≡ ok o)) ⊎ (get k x m ≡ err not_found)
unfolding get
reads k x m = elim (Option-cases (held k x m)) [ inl e ↦ inr (rw e) | inr (a, e) ↦ inl (a, rw e) ]

creates :
    (k : Kind) (o : Object k) (m : Memory)
    → get k (key_of k o) m ≡ err not_found
    → (create k o m).0 ≡ ok tt
creates k o m h = elim (create_cases k o m) [ inl (e, _) ↦ rw e | inr (_, old, there) ↦ cc ]

updates :
    (k : Kind) (o old : Object k) (m : Memory)
    → get k (key_of k o) m ≡ ok old
    → (update k o m).0 ≡ ok tt
updates k o old m h = elim (update_cases k o m) [ inl (e, _, _) ↦ rw e | inr (_, absent) ↦ cc ]

deletes :
    (k : Kind) (x : Key) (m : Memory) (old : Object k)
    → get k x m ≡ ok old
    → (delete k x m).0 ≡ ok tt
deletes k x m old h = elim (delete_cases k x m) [ inl (e, _, _) ↦ rw e | inr (_, absent) ↦ cc ]

pub memory-Healthy : Healthy memory
unfolding memory
memory-Healthy = record {
  reads = reads;
  creates = creates;
  updates = updates;
  deletes = deletes;
  references = λ owner m h. (_, refl);
}
