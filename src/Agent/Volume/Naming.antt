-- ===== src/Agent/Volume/Naming.antt =====
-- The sync of the owner references hands on the claim under the name that it had.
use hackaway_repo.Base.{
  String, ◌≡◌, refl, inl, inr, arith, [], ◌==◌, ◌&&◌, not, nonempty, if◌then◌else◌,
}
use hackaway_repo.Kube.Objects.{Pvc}
use hackaway_repo.V1.Agent.{ClawAgent, reclaim_policy_delete, reclaim_policy_retain}
use hackaway_repo.Client.{pvc, key_of, ok, Result-cases, Client, lift, pure, ◌>>◌}
use hackaway_repo.Client.Laws.{Lawful}
use hackaway_repo.Client.Triple.{Triple-pure, Triple-if, Triple-bind, Triple}
use hackaway_repo.Agent.Volume.{own_pvc, disown_pvc, owned_pvc, sync_pvc_owner_refs}

module _ (c : Client) (law : Lawful c) (owner : ClawAgent) (p : Pvc) where
  abbrev Anywhere : c.State → Type 0
  Anywhere s = Unit

  abbrev Called : Pvc → c.State → Type 0
  Called q s = key_of pvc q ≡ key_of pvc p

  owned_pvc-key :
      (msg : String) (q : Pvc) → owned_pvc c msg owner p ≡ ok q → key_of pvc q ≡ key_of pvc p
  unfolding owned_pvc
  owned_pvc-key msg q done = elim (Result-cases (c.set_controller_reference owner.meta p.meta)) [
    | inl (m, made) ↦ ground (arith, law.reference_key owner.meta p.meta m made)
    | inr other ↦ absurd (ground arith)
  ]

  own_pvc-Called : Triple Anywhere (own_pvc c owner p) Called
  unfolding own_pvc
  own_pvc-Called =
      Triple-bind Anywhere Called Called
        (lift (owned_pvc c "adding owner reference to existing PVC" owner p))
        (λ r. c.update pvc r >> pure r) (λ t _ r made. owned_pvc-key _ r made)
        (λ r.
          Triple-bind (Called r) Called (λ _ _. key_of pvc r ≡ key_of pvc p) (c.update pvc r)
            (λ _. pure r) (λ t h _ _. h)
            (λ _. Triple-pure (λ _. key_of pvc r ≡ key_of pvc p) Called r (λ t h. h)))

  disown_pvc-Called : Triple Anywhere (disown_pvc c p) Called
  unfolding disown_pvc
  disown_pvc-Called =
      let bare = record p { meta = record p.meta { owner_references = [] } } in
      Triple-bind Anywhere Called (λ _ _. Unit {0}) (c.update pvc bare) (λ _. pure bare)
        (λ t h _ _. tt) (λ _. Triple-pure Anywhere Called bare (λ t h. refl))

  sync_pvc_owner_refs-Called :
      (policy : String) → Triple Anywhere (sync_pvc_owner_refs c owner p policy) Called
  unfolding sync_pvc_owner_refs
  sync_pvc_owner_refs-Called policy =
      Triple-if Anywhere Called
        (policy == reclaim_policy_delete && not (nonempty p.meta.owner_references))
        (own_pvc c owner p)
        (if policy == reclaim_policy_retain && nonempty p.meta.owner_references
          then disown_pvc c p
          else pure p)
        own_pvc-Called
        (Triple-if Anywhere Called
          (policy == reclaim_policy_retain && nonempty p.meta.owner_references) (disown_pvc c p)
          (pure p) disown_pvc-Called (Triple-pure Anywhere Called p (λ t h. refl)))

  pub sync_pvc_owner_refs-key :
      (q : Pvc) (policy : String) (s : c.State)
      → (sync_pvc_owner_refs c owner p policy s).0 ≡ ok q
      → key_of pvc q ≡ key_of pvc p
  sync_pvc_owner_refs-key q policy s done = sync_pvc_owner_refs-Called policy s tt q done
