-- ===== src/Ensure/Laws.antt =====
-- What the creating `ensureResource` leaves: the object is there, and nothing that was there has
-- changed.
use hackaway_repo.Base.{
  String, ◌≡◌, refl, sym, ap, ◌∙◌, subst, ◌⊎◌, inl, inr, arith, Bool-cases, String-discrete,
}
use hackaway_repo.Kube.Objects.{ObjectMeta}
use hackaway_repo.Client.{
  Kind, config_map, deployment, service, pvc, pod, agent, channel, gateway, policy, skill_set,
  observability, Object, meta_of, with_meta, Key, key_of, Error, is_not_found, Result-cases, ok,
  err, Client, M, ◌>>◌,
}
use hackaway_repo.Client.Laws.{Lawful, Elsewhere}
use hackaway_repo.Ensure.{with_controller, create_missing, ensure_resource}

-- An object of the kind is there under the key.
abbrev pub There : (c : Client) (k : Kind) → Key → c.State → Type 0
There c k x s = (o : Object k) × (c.get k x s ≡ ok o)

-- Every object that is there stays as it is.
abbrev pub Keeps : (c : Client) → c.State → c.State → Type 0
Keeps c s t = (j : Kind) (y : Key) (o : Object j) → c.get j y s ≡ ok o → c.get j y t ≡ ok o

pub There-Keeps :
    (c : Client) (k : Kind) (x : Key) (s t : c.State) → Keeps c s t → There c k x s → There c k x t
There-Keeps c k x s t keeps (o, there) = (o, keeps k x o there)

pub Keeps-trans : (c : Client) (s t u : c.State) → Keeps c s t → Keeps c t u → Keeps c s u
Keeps-trans c s t u one two j y o there = two j y o (one j y o there)

pub meta_of-with_meta : (k : Kind) (o : Object k) (m : ObjectMeta) → meta_of k (with_meta k o m) ≡ m
meta_of-with_meta config_map o m = refl
meta_of-with_meta deployment o m = refl
meta_of-with_meta service o m = refl
meta_of-with_meta pvc o m = refl
meta_of-with_meta pod o m = refl
meta_of-with_meta agent o m = refl
meta_of-with_meta channel o m = refl
meta_of-with_meta gateway o m = refl
meta_of-with_meta policy o m = refl
meta_of-with_meta skill_set o m = refl
meta_of-with_meta observability o m = refl

Kind-discrete : Discrete Kind
Kind-discrete = hlevel

Key-discrete : Discrete Key
Key-discrete = hlevel String-discrete

same_or_Elsewhere :
    (k : Kind) (x : Key) (j : Kind) (y : Key) → ((k ≡ j) × (x ≡ y)) ⊎ Elsewhere k x j y
same_or_Elsewhere k x j y = elim (Kind-discrete k j) [
  | no p ↦ inr (inl p)
  | yes p ↦ elim (Key-discrete x y) [ yes q ↦ inl (p, q) | no q ↦ inr (inr q) ]
]

module _ (c : Client) (law : Lawful c) where
  absent_there :
      (j : Kind) (y : Key) (s : c.State) (p : Object j) (e : Error)
      → c.get j y s ≡ ok p
      → c.get j y s ≡ err e
      → ⊥
  absent_there j y s p e there gone = absurd (ground arith)

  create-Keeps :
      (k : Kind) (o : Object k) (s : c.State) (e : Error)
      → c.get k (key_of k o) s ≡ err e
      → Keeps c s (c.create k o s).1
  create-Keeps k o s e absent j y p there = elim (same_or_Elsewhere k (key_of k o) j y) [
    | inl (same, at) ↦ absurd (
        absent_there j y s p e there (
          subst (λ z. c.get j z s ≡ err e) at
            (subst (λ i. c.get i (key_of k o) s ≡ err e) same absent)))
    | inr away ↦ law.create_elsewhere k o s j y away ∙ there
  ]

  create_missing-Keeps :
      (k : Kind) (o : Object k) (s : c.State) → Keeps c s (create_missing c k o s).1
  unfolding create_missing
  create_missing-Keeps k o s j y p there = elim (Result-cases (c.get k (key_of k o) s)) [
    | inl (q, found) ↦ ground (arith, there)
    | inr (inl (e, absent)) ↦ ground (arith, there, create-Keeps k o s e absent j y p there)
    | inr (inr stopped) ↦ ground (arith, there)
  ]

  create_missing-There :
      (k : Kind) (o : Object k) (s : c.State)
      → (create_missing c k o s).0 ≡ ok tt
      → There c k (key_of k o) (create_missing c k o s).1
  unfolding create_missing
  create_missing-There k o s done = elim (Result-cases (c.get k (key_of k o) s)) [
    | inl (q, found) ↦ (q, ground arith)
    | inr (inl (e, absent)) ↦ elim (Bool-cases (is_not_found e)) [
      | inl gone ↦
          let (q, stored, same) = law.get_create k o s (ground arith) in (q, ground (arith, stored))
      | inr other ↦ absurd (ground arith)
    ]
    | inr (inr stopped) ↦ absurd (ground arith)
  ]

  with_controller-key :
      (k : Kind) (owner : ObjectMeta) (o q : Object k) (desc : String)
      → with_controller c k owner o desc ≡ ok q
      → key_of k q ≡ key_of k o
  unfolding with_controller
  with_controller-key k owner o q desc made =
      elim (Result-cases (c.set_controller_reference owner (meta_of k o))) [
        | inl (m, e) ↦
            let (n, ns) = law.reference_key owner (meta_of k o) m e in
            let is_q : with_meta k o m ≡ q = ground arith in
            let same : meta_of k q ≡ m = ap (meta_of k) (sym is_q) ∙ meta_of-with_meta k o m in
            cc (
              ap (λ (t : ObjectMeta). t.name) same,
              ap (λ (t : ObjectMeta). t.namespace) same,
              n,
              ns,
            )
        | inr (inl (f, e)) ↦ absurd (ground arith)
        | inr (inr e) ↦ absurd (ground arith)
      ]

  module _ (k : Kind) (owner : ObjectMeta) (o : Object k) (desc : String) (s : c.State) where
    -- With a lawful client the call, whatever its outcome, changes no object that is there.
    pub ensure_resource-Keeps : Keeps c s (ensure_resource c k owner o desc s).1
    unfolding ensure_resource
    ensure_resource-Keeps j y p there = elim (Result-cases (with_controller c k owner o desc)) [
      | inl (q, made) ↦ ground (arith, create_missing-Keeps k q s j y p there)
      | inr (inl (e, failed)) ↦ ground (arith, there)
      | inr (inr stopped) ↦ ground (arith, there)
    ]

    -- With a lawful client the object is there after a call that succeeds.
    pub ensure_resource-There :
        (ensure_resource c k owner o desc s).0 ≡ ok tt
        → There c k (key_of k o) (ensure_resource c k owner o desc s).1
    unfolding ensure_resource
    ensure_resource-There done = elim (Result-cases (with_controller c k owner o desc)) [
      | inl (q, made) ↦
          let (r, found) = create_missing-There k q s (ground arith) in
          (r, ground (arith, found, with_controller-key k owner o q desc made))
      | inr (inl (e, failed)) ↦ absurd (ground arith)
      | inr (inr stopped) ↦ absurd (ground arith)
    ]

  -- An action that changes no object that is there, whatever its outcome.
  abbrev pub Safe : {A : Type 0} → M c.State A → Type 0
  Safe m = (s : c.State) → Keeps c s (m s).1

  pub then-Safe :
      {B : Type 0} (m : M c.State (Unit {0})) (k : M c.State B) → Safe m → Safe k → Safe (m >> k)
  then-Safe m k safe_m safe_k s = elim (Result-cases (m s).0) [
    | inl (a, e) ↦ λ j y o there. ground (arith, safe_k (m s).1 j y o (safe_m s j y o there))
    | inr (inl (g, e)) ↦ λ j y o there. ground (arith, safe_m s j y o there)
    | inr (inr e) ↦ λ j y o there. ground (arith, safe_m s j y o there)
  ]
