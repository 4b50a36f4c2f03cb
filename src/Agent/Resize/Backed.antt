-- ===== src/Agent/Resize/Backed.antt =====
-- After a step of the migration that succeeds, the claim that the agent goes on with is there.
use Prim.Native.String.{len}
use text.Mathlib.TextPositions.{len-append}
use hackaway_repo.Base.{
  String, false, ◌≡◌, ◌≢◌, refl, sym, ap, ◌∙◌, inl, inr, arith, append, ◌==◌, eq_iff, Bool-cases,
  ◌<◌,
}
use hackaway_repo.Kube.Objects.{Pvc, Pod, Quantity}
use hackaway_repo.V1.Agent.{ClawAgent, pvc_resize_suffix}
use hackaway_repo.Client.{
  deployment, pvc, pod, key_of, requeue_needed, is_not_found, ok, Client, M, pure,
}
use hackaway_repo.Client.Laws.{Lawful}
use hackaway_repo.Client.Triple.{
  Triple, Triple-pure, Triple-fail, Triple-if, Triple-bind, Triple-attempt, Triple-read,
}
use hackaway_repo.Agent.Volume.{
  key, active_pvc_name, migrate_pod_name, new_pvc_name, build_pvc, build_migration_pod, with_owner,
  running,
}
use hackaway_repo.Agent.Resize.{
  finish_resize, remove_old, migration_failed, check_migration, ensure_migration_pod, create_owned,
  new_owner_message, ensure_new_pvc, scale_down, resize_pvc,
}
use hackaway_repo.Agent.Resize.Completion.{moved}
use hackaway_repo.Agent.Volume.Owners.{with_owner_key, with_owner_state}

-- The claim in use by the agent is there.
abbrev pub Backed : (c : Client) → String → String → ClawAgent → c.State → Type 0
Backed c ns name a s = (p : Pvc) × (c.get pvc (key (active_pvc_name a name) ns) s ≡ ok p)

not_empty : (s t : String) → 0 < len t → (append s t == "") ≡ false
not_empty s t long = elim (Bool-cases (append s t == "")) [
  | inl blank ↦
      let none_left : len (append s t) ≡ 0 = ap len ((eq_iff (append s t) "").0 blank) in
      absurd (omega (arith, len-append s t))
  | inr filled ↦ filled
]

-- The claim that a growth makes is the one in use afterwards.
moved-active :
    (a : ClawAgent) (name : String) → active_pvc_name (moved a name) name ≡ new_pvc_name name
unfolding active_pvc_name
moved-active a name = rw (not_empty name pvc_resize_suffix (omega arith)) refl

module _ (c : Client) (law : Lawful c) (owner : ClawAgent) (old : Pvc) (ns name : String)
    (used : key_of pvc old ≡ key (active_pvc_name owner name) ns)
    (fresh : active_pvc_name owner name ≢ new_pvc_name name) where
  -- The claim of the growth is there.
  abbrev Grown : c.State → Type 0
  Grown s = (p : Pvc) × (c.get pvc (key (new_pvc_name name) ns) s ≡ ok p)

  abbrev Held : c.State → Type 0
  Held = Backed c ns name owner

  finish_resize-Backed : Triple Grown (finish_resize c owner name) (Backed c ns name)
  unfolding finish_resize
  finish_resize-Backed =
      Triple-pure Grown (Backed c ns name) (moved owner name)
        (λ s grown. (grown.0, ap (λ n. c.get pvc (key n ns) s) (moved-active owner name) ∙ grown.1))

  old_deleted-Grown : (s : c.State) → Grown s → Grown (c.delete pvc (key_of pvc old) s).1
  old_deleted-Grown s (target, there) =
      let apart : key_of pvc old ≢ key (new_pvc_name name) ns =
        λ p. fresh (ap (λ y. y.name) (sym used ∙ p)) in
      (
        target,
        law.delete_elsewhere pvc (key_of pvc old) s pvc (key (new_pvc_name name) ns) (inr apart)
            ∙ there,
      )

  remove_old-Backed : Triple Grown (remove_old c owner old name) (Backed c ns name)
  unfolding remove_old
  remove_old-Backed =
      Triple-attempt Grown (Backed c ns name) (λ _. Grown) Grown (c.delete pvc (key_of pvc old)) _ _
        (λ s grown _ _. old_deleted-Grown s grown) (λ s _ grown. old_deleted-Grown s grown)
        (λ _. finish_resize-Backed)
        (λ e.
          Triple-if Grown (Backed c ns name) (is_not_found e) _ _ finish_resize-Backed
            (Triple-fail Grown (Backed c ns name) e))

  pod_deleted-Grown : (p : Pod) (s : c.State) → Grown s → Grown (c.delete pod (key_of pod p) s).1
  pod_deleted-Grown p s (target, there) = (
    target,
    law.delete_elsewhere pod (key_of pod p) s pvc (key (new_pvc_name name) ns) (inl (λ q. cc))
        ∙ there,
  )

  check_migration-Backed :
      (p : Pod) → Triple Grown (check_migration c owner old name p) (Backed c ns name)
  unfolding check_migration migration_failed
  check_migration-Backed p =
      Triple-if Grown (Backed c ns name) (p.phase == "Succeeded") _ _
        (Triple-attempt Grown (Backed c ns name) (λ _. Grown) Grown (c.delete pod (key_of pod p)) _
          _ (λ s grown _ _. pod_deleted-Grown p s grown) (λ s _ grown. pod_deleted-Grown p s grown)
          (λ _. remove_old-Backed) (λ _. remove_old-Backed))
        (Triple-if Grown (Backed c ns name) (p.phase == "Failed") _ _
          (Triple-attempt Grown (Backed c ns name) (λ _. Grown) Grown (c.delete pod (key_of pod p))
            _ _ (λ s grown _ _. pod_deleted-Grown p s grown)
            (λ s _ grown. pod_deleted-Grown p s grown) (λ _. Triple-fail Grown (Backed c ns name) _)
            (λ _. Triple-fail Grown (Backed c ns name) _))
          (Triple-fail Grown (Backed c ns name) requeue_needed))

  weaken :
      (P R : c.State → Type 0) (m : M c.State ClawAgent)
      → ((s : c.State) → R s → P s)
      → Triple P m (Backed c ns name)
      → Triple R m (Backed c ns name)
  weaken P R m less holds s before = holds s (less s before)

  kept :
      (P : c.State → Type 0)
      → ((s : c.State) → P s → Held s)
      → Triple P (pure owner) (Backed c ns name)
  kept P holds = Triple-pure P (Backed c ns name) owner holds

  ensure_migration_pod-Backed :
      (pvc_name : String)
      → Triple
          (λ s. Held s × Grown s)
          (ensure_migration_pod c owner old ns name pvc_name)
          (Backed c ns name)
  unfolding ensure_migration_pod
  ensure_migration_pod-Backed pvc_name =
      let p = build_migration_pod (migrate_pod_name name) ns name pvc_name (new_pvc_name name) in
      Triple-read (λ s. Held s × Grown s) (Backed c ns name)
        (c.get pod (key (migrate_pod_name name) ns)) _ _
        (λ q. weaken Grown _ _ (λ s h. h.0.1) (check_migration-Backed q))
        (λ e.
          Triple-if _ (Backed c ns name) (is_not_found e) _ _
            (Triple-bind _ (Backed c ns name) (λ _. Held) (c.create pod p) _
              (λ s h _ _. (
                h.0.0.0,
                law.create_elsewhere pod p s pvc (key (active_pvc_name owner name) ns)
                      (inl (λ q. cc))
                    ∙ h.0.0.1,
              ))
              (λ _. kept Held (λ s h. h)))
            (Triple-fail _ (Backed c ns name) e))

  create_owned-Backed :
      (q : Pvc) (policy : String)
      → key_of pvc q ≡ key (new_pvc_name name) ns
      → Triple Held (create_owned c owner q policy) (Backed c ns name)
  unfolding create_owned
  create_owned-Backed q policy called =
      let start = with_owner c new_owner_message owner policy q in
      Triple-bind Held (Backed c ns name) (λ r s. Held s × (key_of pvc r ≡ key_of pvc q)) start _
        (λ s h r made. (
          (
            h.0,
            ap (λ u. c.get pvc (key (active_pvc_name owner name) ns) u)
                  (with_owner_state c law new_owner_message owner policy q s)
                ∙ h.1,
          ),
          with_owner_key c law new_owner_message owner policy q r s made,
        ))
        (λ r.
          Triple-bind _ (Backed c ns name) (λ _. Held) (c.create pvc r) _
            (λ s h _ _. (
              h.0.0,
              law.create_elsewhere pvc r s pvc (key (active_pvc_name owner name) ns)
                    (inr (λ p. fresh (ap (λ y. y.name) (sym p ∙ h.1 ∙ called))))
                  ∙ h.0.1,
            ))
            (λ _. kept Held (λ s h. h)))

  module _ (pvc_name policy : String) (size : Quantity) where
    ensure_new_pvc-Backed :
        Triple Held (ensure_new_pvc c owner old ns name pvc_name size policy) (Backed c ns name)
    unfolding ensure_new_pvc build_pvc
    ensure_new_pvc-Backed =
        Triple-read Held (Backed c ns name) (c.get pvc (key (new_pvc_name name) ns)) _ _
          (λ target.
            weaken _ _ _ (λ s h. (h.0, (target, h.1))) (ensure_migration_pod-Backed pvc_name))
          (λ e.
            Triple-if _ (Backed c ns name) (is_not_found e) _ _
              (weaken Held _ _ (λ s h. h.0)
                (create_owned-Backed
                  (build_pvc (new_pvc_name name) ns name size owner.spec.workspace) policy refl))
              (Triple-fail _ (Backed c ns name) e))

    -- The claim that is grown is in use and there, and it is not one that a growth made.
    pub resize_pvc-Backed :
        Triple Held (resize_pvc c owner old ns name pvc_name size policy) (Backed c ns name)
    unfolding resize_pvc scale_down
    resize_pvc-Backed =
        Triple-read Held (Backed c ns name) (c.get deployment (key name ns)) _ _
          (λ d.
            Triple-if _ (Backed c ns name) (running d) _ _
              (Triple-bind _ (Backed c ns name) (λ _ _. Unit {0}) _ _ (λ s h a e. tt)
                (λ _. Triple-fail _ (Backed c ns name) requeue_needed))
              (weaken Held _ _ (λ s h. h.0) ensure_new_pvc-Backed))
          (λ e. weaken Held _ _ (λ s h. h.0) ensure_new_pvc-Backed)
