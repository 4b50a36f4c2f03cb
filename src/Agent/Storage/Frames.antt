-- ===== src/Agent/Storage/Frames.antt =====
-- The storage of an agent is claims, pods and the replicas of its deployment: nothing else is
-- written, and the agent is the same but for its status.
use hackaway_repo.Base.{
  String, ◌≢◌, refl, ap, ◌∙◌, inl, inr, arith, List, [], ◌∷◌, append, Option-cases,
}
use hackaway_repo.Kube.Objects.{Pvc, Quantity}
use hackaway_repo.V1.Agent.{
  ClawAgent, pvc_suffix, pvc_resize_suffix, resolved_storage_size, resolved_reclaim_policy,
}
use hackaway_repo.Client.{Kind, deployment, pvc, pod, Key, key_of, is_not_found, Client, reads}
use hackaway_repo.Client.Laws.{Lawful}
use hackaway_repo.Client.Frame.{
  Leaves, Tame, Tame-pure, Tame-fail, Tame-if, Tame-bind, Tame-attempt,
}
use hackaway_repo.Agent.Volume.{
  key, active_pvc_name, build_pvc, with_owner, storage_of, is_gt, sync_pvc_owner_refs,
}
use hackaway_repo.Agent.Volume.Owners.{with_owner_state, sync_write}
use hackaway_repo.Agent.Resize.Frames.{SameAgent, resize_pvc-Leaves}
use hackaway_repo.Agent.Storage.{
  owner_message, create_pvc, adjust_pvc, look_up_pvc, ensure_parsed_pvc, ensure_pvc, cleanup_pvcs,
  cleanup_orphaned_pvc,
}

module _ (c : Client) (law : Lawful c) (j : Kind) (x : Key) (pvcs : pvc ≢ j) where
  sync_pvc_owner_refs-Leaves :
      (owner : ClawAgent) (p : Pvc) (policy : String)
      → Leaves c j x (sync_pvc_owner_refs c owner p policy)
  sync_pvc_owner_refs-Leaves owner p policy s = elim (sync_write c law owner p policy s) [
    | inl same ↦ ap (λ t. c.get j x t) same
    | inr (q, written, same, size) ↦
        ap (λ t. c.get j x t) written ∙ law.update_elsewhere pvc q s j x (inl pvcs)
  ]

  cleanup_pvcs-Leaves :
      (ns name : String) (suffixes : List String)
      → Tame c j x (λ _. Unit {0}) (cleanup_pvcs c ns name suffixes)
  unfolding cleanup_pvcs
  cleanup_pvcs-Leaves ns name [] = Tame-pure c j x _ tt tt
  cleanup_pvcs-Leaves ns name (suffix ∷ suffixes) =
      let rest = cleanup_pvcs-Leaves ns name suffixes in
      Tame-attempt c j x _ (reads (c.get pvc (key (append name suffix) ns))) _ _ (λ s. refl)
        (λ old.
          Tame-attempt c j x _ (c.delete pvc (key_of pvc old)) _ _
            (λ s. law.delete_elsewhere pvc (key_of pvc old) s j x (inl pvcs)) (λ _. rest)
            (λ e. Tame-if c j x _ (is_not_found e) _ _ rest (Tame-fail c j x _ e)))
        (λ e. Tame-if c j x _ (is_not_found e) _ _ rest (Tame-fail c j x _ e))

  pub cleanup_orphaned_pvc-Leaves :
      (ns name : String) → Leaves c j x (cleanup_orphaned_pvc c ns name)
  unfolding cleanup_orphaned_pvc
  cleanup_orphaned_pvc-Leaves ns name s =
      (cleanup_pvcs-Leaves ns name (pvc_suffix ∷ pvc_resize_suffix ∷ []) s).0

  module _ (pods : pod ≢ j) (deployments : deployment ≢ j) (owner : ClawAgent) where
    adjust_pvc-Leaves :
        (old : Pvc) (ns name pvc_name : String) (size : Quantity) (policy : String)
        → Tame c j x (SameAgent owner) (adjust_pvc c owner old ns name pvc_name size policy)
    unfolding adjust_pvc
    adjust_pvc-Leaves old ns name pvc_name size policy =
        Tame-bind c j x _ (sync_pvc_owner_refs c owner old policy) _
          (sync_pvc_owner_refs-Leaves owner old policy)
          (λ p.
            Tame-if c j x _ (is_gt (c.cmp size (storage_of c.zero_quantity p))) _ _
              (resize_pvc-Leaves c law j x pvcs pods deployments owner p ns name pvc_name size
                policy)
              (Tame-pure c j x _ owner (refl, refl)))

    look_up_pvc-Leaves :
        (p : Pvc) (ns name pvc_name policy : String) (size : Quantity)
        → Tame c j x (SameAgent owner) (look_up_pvc c owner p ns name pvc_name policy size)
    unfolding look_up_pvc create_pvc
    look_up_pvc-Leaves p ns name pvc_name policy size =
        Tame-attempt c j x _ (reads (c.get pvc (key pvc_name ns))) _ _ (λ s. refl)
          (λ old. adjust_pvc-Leaves old ns name pvc_name size policy)
          (λ e.
            Tame-if c j x _ (is_not_found e) _ _
              (Tame-bind c j x _ (c.create pvc p) _
                (λ s. law.create_elsewhere pvc p s j x (inl pvcs))
                (λ _. Tame-pure c j x _ owner (refl, refl)))
              (Tame-fail c j x _ e))

    pub ensure_pvc-Leaves :
        (ns name : String) → Tame c j x (SameAgent owner) (ensure_pvc c owner ns name)
    unfolding ensure_pvc ensure_parsed_pvc
    ensure_pvc-Leaves ns name s =
        elim (Option-cases (c.must_parse (resolved_storage_size owner.spec.workspace))) [
          | inl none_parsed ↦ rw (none_parsed, ensure_pvc) (refl, λ b done. absurd (ground arith))
          | inr (size, parsed) ↦
              let policy = resolved_reclaim_policy owner.spec.workspace in
              let pvc_name = active_pvc_name owner name in
              let p = build_pvc pvc_name ns name size owner.spec.workspace in
              rw (parsed, ensure_pvc)
                (Tame-bind c j x _ (with_owner c owner_message owner policy p) _
                  (λ t i. c.get j x (with_owner_state c law owner_message owner policy p t i))
                  (λ q. look_up_pvc-Leaves q ns name pvc_name policy size) s)
        ]
