-- ===== src/Agent/Storage/Keeps.antt =====
-- What a reconciliation may do to the claims that are there.
use hackaway_repo.Base.{
  String, ◌≡◌, ◌≢◌, refl, sym, ap, ◌∙◌, subst, inl, inr, arith, Bool-cases, String-discrete,
  Option-cases,
}
use hackaway_repo.V1.Agent.{
  ClawAgent, WorkspaceSpec, resolved_storage_size, resolved_reclaim_policy,
}
use hackaway_repo.Client.{pvc, pod, Key, key_of, Error, is_not_found, Result-cases, ok, err, Client}
use hackaway_repo.Client.Laws.{Lawful}
use hackaway_repo.Kube.Objects.{Pvc, Pod, Quantity}
use hackaway_repo.Agent.Volume.{
  key, migrate_pod_name, with_owner, sync_pvc_owner_refs, build_pvc, active_pvc_name,
}
use hackaway_repo.Agent.Volume.Owners.{with_owner_key, with_owner_state, sync_write}
use hackaway_repo.Agent.Resize.Safety.{resize_pvc-keeps}
use hackaway_repo.Agent.Storage.{
  create_pvc, adjust_pvc, look_up_pvc, owner_message, ensure_parsed_pvc, ensure_pvc,
}

Key-discrete : Discrete Key
Key-discrete = hlevel String-discrete

-- The claim is there, with the size that it had.
abbrev pub Kept : (c : Client) → Key → Pvc → c.State → Type 0
Kept c x o s = (o' : Pvc) × (c.get pvc x s ≡ ok o') × (o'.requests ≡ o.requests)

-- No migration pod has succeeded.
abbrev pub Pending : (c : Client) → String → String → c.State → Type 0
Pending c ns name s =
    (p : Pod) → c.get pod (key (migrate_pod_name name) ns) s ≡ ok p → p.phase ≢ "Succeeded"

build_pvc-key :
    (pvc_name ns name : String) (size : Quantity) (ws : WorkspaceSpec)
    → key_of pvc (build_pvc pvc_name ns name size ws) ≡ key pvc_name ns
unfolding build_pvc
build_pvc-key pvc_name ns name size ws = refl

module _ (c : Client) (law : Lawful c) (x : Key) (o : Pvc) where
  -- A write of a claim under its key, at its size.
  update-Kept :
      (p q : Pvc) (s : c.State)
      → c.get pvc (key_of pvc p) s ≡ ok p
      → key_of pvc q ≡ key_of pvc p
      → q.requests ≡ p.requests
      → c.get pvc x s ≡ ok o
      → Kept c x o (c.update pvc q s).1
  update-Kept p q s there same size held = elim (Result-cases (c.update pvc q s).0) [
    | inl (_, done) ↦
        let (q', found, content) = law.get_update pvc q s done in
        elim (Key-discrete (key_of pvc q) x) [
          | yes here ↦
              let is_p : p ≡ o =
                ground
                  (arith, sym there, subst (λ y. c.get pvc y s ≡ ok o) (sym here ∙ same) held) in
              (
                q',
                subst (λ y. c.get pvc y (c.update pvc q s).1 ≡ ok q') here found,
                sym content.0 ∙ size ∙ ap (λ r. r.requests) is_p,
              )
          | no away ↦ (o, law.update_elsewhere pvc q s pvc x (inr away) ∙ held, refl)
        ]
    | inr failed ↦
        let same_state =
          law.update_failed pvc q s (λ e. elim failed [ inl (f, g) ↦ cc | inr g ↦ cc ]) in
        (o, rw same_state held, refl)
  ]

  module _ (owner : ClawAgent) (ns name : String) where
    sync-Kept :
        (p : Pvc) (policy : String) (s : c.State)
        → c.get pvc (key_of pvc p) s ≡ ok p
        → c.get pvc x s ≡ ok o
        → let s' = (sync_pvc_owner_refs c owner p policy s).1 in
          Kept c x o s'
          × (c.get pod (key (migrate_pod_name name) ns) s'
              ≡ c.get pod (key (migrate_pod_name name) ns) s)
    sync-Kept p policy s there held = elim (sync_write c law owner p policy s) [
      | inl same ↦ rw same ((o, held, refl), refl)
      | inr (q, written, same, size) ↦ rw written (
        update-Kept p q s there same size held,
        law.update_elsewhere pvc q s pod (key (migrate_pod_name name) ns) (inl (λ e. cc)),
      )
    ]

    adjust_pvc-Kept :
        (p : Pvc) (pvc_name : String) (size : Quantity) (policy : String) (s : c.State)
        → c.get pvc (key_of pvc p) s ≡ ok p
        → c.get pvc x s ≡ ok o
        → Pending c ns name s
        → Kept c x o (adjust_pvc c owner p ns name pvc_name size policy s).1
    unfolding adjust_pvc
    adjust_pvc-Kept p pvc_name size policy s there held pending =
        let ((o', found, same), pods) = sync-Kept p policy s there held in
        let t = (sync_pvc_owner_refs c owner p policy s).1 in
        elim (Result-cases (sync_pvc_owner_refs c owner p policy s).0) [
          | inl (q, synced) ↦
              let kept =
                resize_pvc-keeps c law t x o' found owner q ns name pvc_name size policy
                  (λ (m : Pod) e. pending m (sym pods ∙ e)) in
              (o', ground (arith, kept), same)
          | inr other ↦ (o', ground arith, same)
        ]

    -- The claim that is created was not there.
    create_pvc-Kept :
        (p : Pvc) (y : Key) (e : Error) (s : c.State)
        → key_of pvc p ≡ y
        → c.get pvc y s ≡ err e
        → c.get pvc x s ≡ ok o
        → Kept c x o (create_pvc c owner p s).1
    unfolding create_pvc
    create_pvc-Kept p y e s same absent held =
        (o, ground (arith, law.create_elsewhere pvc p s pvc x (inr (λ clash. cc))), refl)

    -- The lookup of the claim, and what follows from each answer.
    look_up_pvc-Kept :
        (p : Pvc) (pvc_name policy : String) (size : Quantity) (s : c.State)
        → key_of pvc p ≡ key pvc_name ns
        → c.get pvc x s ≡ ok o
        → Pending c ns name s
        → Kept c x o (look_up_pvc c owner p ns name pvc_name policy size s).1
    unfolding look_up_pvc
    look_up_pvc-Kept p pvc_name policy size s same held pending =
        elim (Result-cases (c.get pvc (key pvc_name ns) s)) [
          | inl (q, found) ↦
              let filed = law.get_key pvc (key pvc_name ns) s q found in
              let (o', kept, sized) =
                adjust_pvc-Kept q pvc_name size policy s
                  (subst (λ y. c.get pvc y s ≡ ok q) (sym filed) found) held pending in
              (o', ground (arith, kept), sized)
          | inr (inl (e, absent)) ↦
              let (o', kept, sized) = create_pvc-Kept p (key pvc_name ns) e s same absent held in
              elim (Bool-cases (is_not_found e)) [
                | inl gone ↦ (o', ground (arith, kept), sized)
                | inr other ↦ (o, ground arith, refl)
              ]
          | inr (inr stopped) ↦ (o, ground arith, refl)
        ]

    ensure_parsed_pvc-Kept :
        (pvc_name policy : String) (size : Quantity) (s : c.State)
        → c.get pvc x s ≡ ok o
        → Pending c ns name s
        → Kept c x o (ensure_parsed_pvc c owner ns name pvc_name policy size s).1
    unfolding ensure_parsed_pvc
    ensure_parsed_pvc-Kept pvc_name policy size s held pending =
        let p = build_pvc pvc_name ns name size owner.spec.workspace in
        let unmoved = with_owner_state c law owner_message owner policy p s in
        elim (Result-cases (with_owner c owner_message owner policy p s).0) [
          | inl (q, made) ↦
              let (o', kept, sized) =
                look_up_pvc-Kept q pvc_name policy size s
                  (with_owner_key c law owner_message owner policy p q s made
                    ∙ build_pvc-key pvc_name ns name size owner.spec.workspace)
                  held pending in
              (o', ground (arith, unmoved, kept), sized)
          | inr other ↦ (o, ground (arith, unmoved), refl)
        ]

    -- With a lawful client, one call of `ensurePVC`, whatever its outcome, leaves a claim that is
    -- there in place and at its size, if the agent's migration pod, where there is one, has not
    -- succeeded.
    pub ensure_pvc-Kept :
        (s : c.State)
        → c.get pvc x s ≡ ok o
        → Pending c ns name s
        → Kept c x o (ensure_pvc c owner ns name s).1
    unfolding ensure_pvc
    ensure_pvc-Kept s held pending =
        elim (Option-cases (c.must_parse (resolved_storage_size owner.spec.workspace))) [
          | inl e ↦ (o, ground arith, refl)
          | inr (size, e) ↦
              let (o', kept, sized) =
                ensure_parsed_pvc-Kept (active_pvc_name owner name)
                  (resolved_reclaim_policy owner.spec.workspace) size s held pending in
              (o', ground (arith, kept), sized)
        ]
