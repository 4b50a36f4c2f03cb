-- ===== src/Agent/Storage/Backed.antt =====
-- After `ensurePVC` succeeds, the claim that the agent's pod is to mount is there.
use hackaway_repo.Base.{String, ◌≡◌, ◌≢◌, refl, sym, ap, ◌∙◌, subst, inl, inr, arith, Option-cases}
use hackaway_repo.Kube.Objects.{Pvc, Quantity}
use hackaway_repo.V1.Agent.{ClawAgent, resolved_storage_size, resolved_reclaim_policy}
use hackaway_repo.Client.{pvc, Key, key_of, is_not_found, ok, Client}
use hackaway_repo.Client.Laws.{Lawful}
use hackaway_repo.Client.Triple.{
  Triple, Triple-pure, Triple-fail, Triple-if, Triple-bind, Triple-read,
}
use hackaway_repo.Agent.Volume.{
  key, active_pvc_name, new_pvc_name, build_pvc, with_owner, storage_of, is_gt, sync_pvc_owner_refs,
}
use hackaway_repo.Agent.Volume.Owners.{with_owner_key, sync_pvc_owner_refs-follows}
use hackaway_repo.Agent.Volume.Naming.{sync_pvc_owner_refs-key}
use hackaway_repo.Agent.Resize.Backed.{Backed, resize_pvc-Backed}
use hackaway_repo.Agent.Storage.{
  owner_message, create_pvc, adjust_pvc, look_up_pvc, ensure_parsed_pvc, ensure_pvc,
}

module _ (c : Client) (law : Lawful c) (owner : ClawAgent) (ns name : String)
    (fresh : active_pvc_name owner name ≢ new_pvc_name name) where
  -- The key of the claim in use.
  abbrev home : Key
  home = key (active_pvc_name owner name) ns

  adjust_pvc-Backed :
      (p : Pvc) (pvc_name policy : String) (size : Quantity)
      → Triple
          (λ s. c.get pvc home s ≡ ok p)
          (adjust_pvc c owner p ns name pvc_name size policy)
          (Backed c ns name)
  unfolding adjust_pvc
  adjust_pvc-Backed p pvc_name policy size s found =
      let called : key_of pvc p ≡ home = law.get_key pvc home s p found in
      let there : c.get pvc (key_of pvc p) s ≡ ok p =
        subst (λ y. c.get pvc y s ≡ ok p) (sym called) found in
      Triple-bind (λ t. t ≡ s) (Backed c ns name)
        (λ q t. (key_of pvc q ≡ home) × Backed c ns name owner t)
        (sync_pvc_owner_refs c owner p policy) _
        (λ t same q done.
          let done' : (sync_pvc_owner_refs c owner p policy s).0 ≡ ok q =
            subst (λ u. (sync_pvc_owner_refs c owner p policy u).0 ≡ ok q) same done in
          let (_, _, _, (p', stored, _, _)) =
            sync_pvc_owner_refs-follows c law owner p q policy s there done' in
          (
            sync_pvc_owner_refs-key c law owner p q policy s done' ∙ called,
            subst (λ u. Backed c ns name owner (sync_pvc_owner_refs c owner p policy u).1)
                (sym same)
                (
                  p',
                  ap (λ y. c.get pvc y (sync_pvc_owner_refs c owner p policy s).1) (sym called)
                      ∙ stored,
                ),
          ))
        (λ q t (called_q, held).
          Triple-if (λ u. u ≡ t) (Backed c ns name)
            (is_gt (c.cmp size (storage_of c.zero_quantity q))) _ _
            (λ u same.
              resize_pvc-Backed c law owner q ns name called_q fresh pvc_name policy size u
                (subst (Backed c ns name owner) (sym same) held))
            (Triple-pure (λ u. u ≡ t) (Backed c ns name) owner
              (λ u same. subst (Backed c ns name owner) (sym same) held))
            t refl)
        s refl

  look_up_pvc-Backed :
      (p : Pvc) (policy : String) (size : Quantity)
      → key_of pvc p ≡ home
      → Triple
          (λ _. Unit {0})
          (look_up_pvc c owner p ns name (active_pvc_name owner name) policy size)
          (Backed c ns name)
  unfolding look_up_pvc create_pvc
  look_up_pvc-Backed p policy size called =
      Triple-read (λ _. Unit {0}) (Backed c ns name) (c.get pvc home) _ _
        (λ old s h. adjust_pvc-Backed old (active_pvc_name owner name) policy size s h.1)
        (λ e.
          Triple-if _ (Backed c ns name) (is_not_found e) _ _
            (Triple-bind _ (Backed c ns name) (λ _. Backed c ns name owner) (c.create pvc p) _
              (λ s _ _ done.
                let (o, stored, _) = law.get_create pvc p s done in
                (o, ap (λ y. c.get pvc y (c.create pvc p s).1) (sym called) ∙ stored))
              (λ _. Triple-pure _ (Backed c ns name) owner (λ s h. h)))
            (Triple-fail _ (Backed c ns name) e))

  -- With a lawful client, when the claim in use is not one that an earlier growth made and the call
  -- succeeds, the claim that the agent then uses is there.
  pub ensure_pvc-Backed :
      (s : c.State) (b : ClawAgent)
      → (ensure_pvc c owner ns name s).0 ≡ ok b
      → Backed c ns name b (ensure_pvc c owner ns name s).1
  unfolding ensure_pvc ensure_parsed_pvc build_pvc
  ensure_pvc-Backed s b done =
      elim (Option-cases (c.must_parse (resolved_storage_size owner.spec.workspace))) [
        | inl none_parsed ↦ absurd (ground arith)
        | inr (size, parsed) ↦
            let policy = resolved_reclaim_policy owner.spec.workspace in
            let p = build_pvc (active_pvc_name owner name) ns name size owner.spec.workspace in
            let triple =
              Triple-bind (λ _. Unit {0}) (Backed c ns name) (λ q _. key_of pvc q ≡ home)
                (with_owner c owner_message owner policy p)
                (λ q. look_up_pvc c owner q ns name (active_pvc_name owner name) policy size)
                (λ t _ q made. with_owner_key c law owner_message owner policy p q t made)
                (λ q t called. look_up_pvc-Backed q policy size called t tt) in
            rw (parsed, ensure_pvc) (triple s tt b (rw (parsed, ensure_pvc) at done))
      ]
