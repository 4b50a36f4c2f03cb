-- ===== src/Agent/Volume/Owners.antt =====
-- The owner references of a claim, as the reclaim policy sets them.
use hackaway_repo.Base.{
  String, subst, ◌≡◌, ◌≢◌, refl, sym, ◌∙◌, ◌⊎◌, inl, inr, arith, ◌&&◌, not, true, false, ◌==◌,
  eq_iff, Bool-cases, nonempty, [],
}
use hackaway_repo.Kube.Objects.{Pvc}
use hackaway_repo.V1.Agent.{ClawAgent, reclaim_policy_delete, reclaim_policy_retain}
use hackaway_repo.Client.{pvc, key_of, Result-cases, ok, Client}
use hackaway_repo.Client.Laws.{Lawful, Healthy}
use hackaway_repo.Agent.Volume.{with_owner, sync_pvc_owner_refs, own_pvc, disown_pvc}

distinct_policies : reclaim_policy_delete ≢ reclaim_policy_retain
distinct_policies = ground (arith, eq_iff reclaim_policy_delete reclaim_policy_retain)

module _ (c : Client) (law : Lawful c) where
  pub with_owner_key :
      (msg : String) (owner : ClawAgent) (policy : String) (p q : Pvc) (s : c.State)
      → (with_owner c msg owner policy p s).0 ≡ ok q
      → key_of pvc q ≡ key_of pvc p
  unfolding with_owner
  with_owner_key msg owner policy p q s h =
      ground (arith, law.reference_key owner.meta p.meta q.meta)

  pub with_owner_state :
      (msg : String) (owner : ClawAgent) (policy : String) (p : Pvc) (s : c.State)
      → (with_owner c msg owner policy p s).1 ≡ s
  unfolding with_owner
  with_owner_state msg owner policy p s = ground arith

  -- On a healthy client a claim without owners can always be given one.
  pub with_owner_ok :
      Healthy c
      → (msg : String) (owner : ClawAgent) (policy : String) (p : Pvc) (s : c.State)
      → p.meta.owner_references ≡ []
      → (q : Pvc) × (with_owner c msg owner policy p s ≡ (ok q, s))
        × (key_of pvc q ≡ key_of pvc p)
        × (q.requests ≡ p.requests)
  unfolding with_owner
  with_owner_ok healthy msg owner policy p s bare =
      let (m, made) = healthy.references owner.meta p.meta bare in
      elim (Bool-cases (policy == reclaim_policy_delete)) [
        | inl del ↦ (
          record p { meta = m },
          ground arith,
          ground (arith, law.reference_key owner.meta p.meta m made),
          refl,
        )
        | inr keep ↦ (p, ground arith, refl, refl)
      ]

  module _ (p : Pvc) (s : c.State) (there : c.get pvc (key_of pvc p) s ≡ ok p) where
    -- What a sync leaves in the cluster, next to the value that it returns.
    abbrev Synced : Pvc → c.State → Type 0
    Synced q s' =
        (q.requests ≡ p.requests)
        × ((p' : Pvc) × (c.get pvc (key_of pvc p) s' ≡ ok p')
            × (p'.meta.owner_references ≡ q.meta.owner_references)
            × (p'.requests ≡ p.requests))

    update-Synced :
        (q : Pvc)
        → key_of pvc q ≡ key_of pvc p
        → q.requests ≡ p.requests
        → (c.update pvc q s).0 ≡ ok tt
        → Synced q (c.update pvc q s).1
    update-Synced q same kept done =
        let (p', found, same_content) = law.get_update pvc q s done in
        (
          kept,
          (
            p',
            subst (λ x. c.get pvc x (c.update pvc q s).1 ≡ ok p') same found,
            sym same_content.1,
            sym same_content.0 ∙ kept,
          ),
        )

    own_pvc-Synced :
        (owner : ClawAgent) (q : Pvc)
        → (own_pvc c owner p s).0 ≡ ok q
        → (nonempty q.meta.owner_references ≡ true) × Synced q (own_pvc c owner p s).1
    unfolding own_pvc
    own_pvc-Synced owner q done =
        elim (Result-cases (c.set_controller_reference owner.meta p.meta)) [
          | inl (m, made) ↦
              let owned = record p { meta = m } in
              let moved : key_of pvc owned ≡ key_of pvc p =
                ground (arith, law.reference_key owner.meta p.meta m made) in
              elim (Result-cases (c.update pvc owned s).0) [
                | inl (_, written) ↦
                    let same : owned ≡ q = ground arith in
                    let state : (own_pvc c owner p s).1 ≡ (c.update pvc owned s).1 = ground arith in
                    rw (state, ← same)
                      (
                        law.reference_owned owner.meta p.meta m made,
                        update-Synced owned moved refl written,
                      )
                | inr other ↦ absurd (ground arith)
              ]
          | inr other ↦ absurd (ground arith)
        ]

    disown_pvc-Synced :
        (q : Pvc)
        → (disown_pvc c p s).0 ≡ ok q
        → (nonempty q.meta.owner_references ≡ false) × Synced q (disown_pvc c p s).1
    unfolding disown_pvc
    disown_pvc-Synced q done =
        let released = record p { meta = record p.meta { owner_references = [] } } in
        elim (Result-cases (c.update pvc released s).0) [
          | inl (_, written) ↦
              let same : released ≡ q = ground arith in
              let state : (disown_pvc c p s).1 ≡ (c.update pvc released s).1 = ground arith in
              rw (state, ← same) (refl, update-Synced released refl refl written)
          | inr other ↦ absurd (ground arith)
        ]

  sync_cases :
      (owner : ClawAgent) (p : Pvc) (policy : String) (s : c.State)
      → ((sync_pvc_owner_refs c owner p policy s ≡ own_pvc c owner p s)
          × (policy ≡ reclaim_policy_delete))
        ⊎ ((sync_pvc_owner_refs c owner p policy s ≡ disown_pvc c p s)
            × (policy ≡ reclaim_policy_retain))
        ⊎ ((sync_pvc_owner_refs c owner p policy s ≡ (ok p, s))
            × (policy ≡ reclaim_policy_delete → nonempty p.meta.owner_references ≡ true)
            × (policy ≡ reclaim_policy_retain → nonempty p.meta.owner_references ≡ false))
  unfolding sync_pvc_owner_refs
  sync_cases owner p policy s =
      elim (Bool-cases
        (policy == reclaim_policy_delete && not (nonempty p.meta.owner_references))) [
          | inl adds ↦ inl (rw adds, ground (arith, eq_iff policy reclaim_policy_delete))
          | inr keeps ↦
              elim (Bool-cases
                (policy == reclaim_policy_retain && nonempty p.meta.owner_references)) [
                  | inl drops ↦
                      inr (
                        inl
                          (rw (keeps, drops), ground (arith, eq_iff policy reclaim_policy_retain)))
                  | inr stays ↦ inr (
                      inr (
                        rw (keeps, stays),
                        (λ e. ground (arith, eq_iff policy reclaim_policy_delete)),
                        (λ e. ground (arith, eq_iff policy reclaim_policy_retain)),
                      ))
                ]
        ]

  -- With a lawful client, when the claim in the cluster is the one that was read and the sync
  -- succeeds, the claim has an owner under the policy `delete` and none under `retain`, in the
  -- cluster as in the value that the caller goes on with, and its size is as before.
  pub sync_pvc_owner_refs-follows :
      (owner : ClawAgent) (p q : Pvc) (policy : String) (s : c.State)
      → c.get pvc (key_of pvc p) s ≡ ok p
      → (sync_pvc_owner_refs c owner p policy s).0 ≡ ok q
      → (policy ≡ reclaim_policy_delete → nonempty q.meta.owner_references ≡ true)
        × (policy ≡ reclaim_policy_retain → nonempty q.meta.owner_references ≡ false)
        × (q.requests ≡ p.requests)
        × ((p' : Pvc) × (c.get pvc (key_of pvc p) (sync_pvc_owner_refs c owner p policy s).1
              ≡ ok p')
            × (p'.meta.owner_references ≡ q.meta.owner_references)
            × (p'.requests ≡ p.requests))
  sync_pvc_owner_refs-follows owner p q policy s there done = elim (sync_cases owner p policy s) [
    | inl (e, del) ↦
        let (owned, synced) = own_pvc-Synced p s there owner q (rw e at done) in
        ((λ _. owned), (λ ret. absurd (distinct_policies (sym del ∙ ret))), synced.0, rw e synced.1)
    | inr (inl (e, ret)) ↦
        let (bare, synced) = disown_pvc-Synced p s there q (rw e at done) in
        ((λ del. absurd (distinct_policies (sym del ∙ ret))), (λ _. bare), synced.0, rw e synced.1)
    | inr (inr (e, owned, bare)) ↦
        let same : p ≡ q = ground arith in
        rw (e, ← same) (owned, bare, refl, (p, there, refl, refl))
  ]

  -- The sync leaves the cluster as it is, or writes the claim once under its key and at its size.
  pub sync_write :
      (owner : ClawAgent) (p : Pvc) (policy : String) (s : c.State)
      → ((sync_pvc_owner_refs c owner p policy s).1 ≡ s)
        ⊎ ((q : Pvc) × ((sync_pvc_owner_refs c owner p policy s).1 ≡ (c.update pvc q s).1)
            × (key_of pvc q ≡ key_of pvc p)
            × (q.requests ≡ p.requests))
  unfolding own_pvc disown_pvc
  sync_write owner p policy s = elim (sync_cases owner p policy s) [
    | inl (e, del) ↦ elim (Result-cases (c.set_controller_reference owner.meta p.meta)) [
      | inl (m, made) ↦ inr (
        record p { meta = m },
        rw e (ground arith),
        ground (arith, law.reference_key owner.meta p.meta m made),
        refl,
      )
      | inr other ↦ inl (rw e (ground arith))
    ]
    | inr (inl (e, ret)) ↦ inr (
      record p { meta = record p.meta { owner_references = [] } },
      rw e (ground arith),
      refl,
      refl,
    )
    | inr (inr (e, _, _)) ↦ inl (rw e)
  ]
