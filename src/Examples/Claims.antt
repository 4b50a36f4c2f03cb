-- ===== src/Examples/Claims.antt =====
-- The theorems on claims, at the clusters of Examples/Data.
use hackaway_repo.Base.{◌≡◌, ◌≢◌, refl, arith, ◌<◌, eq_iff, ap, true, false, nonempty, [], ◌∷◌}
use hackaway_repo.Kube.Objects.{Pvc}
use hackaway_repo.Client.{pvc, key_of, ok, err, not_found}
use hackaway_repo.Client.Memory.{memory, holding}
use hackaway_repo.Client.Memory.Lawfulness.{memory-Lawful, memory-Healthy}
use hackaway_repo.V1.Agent.{reclaim_policy_delete, reclaim_policy_retain}
use hackaway_repo.Kube.Build.{object_meta}
use hackaway_repo.Agent.Volume.{key, new_pvc_name, sync_pvc_owner_refs}
use hackaway_repo.Agent.Volume.Owners.{sync_pvc_owner_refs-follows}
use hackaway_repo.Agent.Resize.{resize_pvc}
use hackaway_repo.Agent.Resize.Progress.{resize_pvc-advances, stage, is_running, present}
use hackaway_repo.Agent.Resize.Completion.{
  IsMigrated, moved, resize_pvc_completes, resize_pvc_again,
}
use hackaway_repo.Agent.Storage.{cleanup_orphaned_pvc}
use hackaway_repo.Examples.Data.{one_claim, copied, bot, claim_named, stopped_bot, copier}

cleaned : (cleanup_orphaned_pvc memory "ns" "bot" (holding one_claim)).0 ≡ ok tt
unfolding memory holding cleanup_orphaned_pvc
cleaned = refl

-- No migration pod is there.
home : memory.get pvc (key "bot-home" "ns") (holding one_claim) ≡ ok (claim_named "bot-home" "5Gi")
unfolding memory holding
home = refl

two_steps : stage memory "ns" "bot" (holding one_claim) ≡ 2
unfolding memory holding stage is_running present
two_steps = refl

steps_left : 0 < stage memory "ns" "bot" (holding one_claim)
steps_left = rw two_steps (omega arith)

resize_pvc-advances_example :
    stage memory "ns" "bot"
      (resize_pvc memory
        (bot "persistent")
        (claim_named "bot-home" "5Gi")
        "ns"
        "bot"
        "bot-home"
        "10Gi"
        "delete"
        (holding one_claim)).1
    < stage memory "ns" "bot" (holding one_claim)
resize_pvc-advances_example =
    resize_pvc-advances memory memory-Lawful memory-Healthy (holding one_claim) (bot "persistent")
      (claim_named "bot-home" "5Gi") "ns" "bot" "bot-home" "10Gi" "delete" steps_left

unfoldable copied-IsMigrated :
    IsMigrated memory (holding copied) "ns" "bot" (claim_named "bot-home" "5Gi")
unfolding memory holding
copied-IsMigrated = record {
  dep = stopped_bot;
  migration_pod = copier;
  target = claim_named "bot-home-v2" "10Gi";
  at_rest = refl;
  stopped = refl;
  copied = refl;
  succeeded = refl;
  pod_removed = refl;
  prepared = refl;
  removed = refl;
}

other_name : key_of pvc (claim_named "bot-home" "5Gi") ≢ key (new_pvc_name "bot") "ns"
other_name e = absurd (ground (arith, ap (λ k. k.name) e, eq_iff "bot-home" "bot-home-v2"))

resize_pvc_completes_example :
    let (r, s') =
      resize_pvc memory
        (bot "persistent")
        (claim_named "bot-home" "5Gi")
        "ns"
        "bot"
        "bot-home"
        "10Gi"
        "delete"
        (holding copied) in
    (r ≡ ok (moved (bot "persistent") "bot"))
    × (memory.get pvc (key "bot-home" "ns") s' ≡ err not_found)
    × (memory.get pvc (key (new_pvc_name "bot") "ns") s' ≡ ok (claim_named "bot-home-v2" "10Gi"))
unfolding copied-IsMigrated
resize_pvc_completes_example =
    resize_pvc_completes memory memory-Lawful (holding copied) (bot "persistent")
      (claim_named "bot-home" "5Gi") "ns" "bot" "bot-home" "10Gi" "delete" copied-IsMigrated
      other_name

copied_again-IsMigrated :
    IsMigrated memory (holding copied) "ns" "bot" (claim_named "bot-home-v2" "10Gi")
unfolding memory holding
copied_again-IsMigrated = record {
  dep = stopped_bot;
  migration_pod = copier;
  target = claim_named "bot-home-v2" "10Gi";
  at_rest = refl;
  stopped = refl;
  copied = refl;
  succeeded = refl;
  pod_removed = refl;
  prepared = refl;
  removed = refl;
}

resize_pvc_again_example :
    let (r, s') =
      resize_pvc memory
        (bot "persistent")
        (claim_named "bot-home-v2" "10Gi")
        "ns"
        "bot"
        "bot-home-v2"
        "20Gi"
        "delete"
        (holding copied) in
    (r ≡ ok (moved (bot "persistent") "bot"))
    × (memory.get pvc (key (new_pvc_name "bot") "ns") s' ≡ err not_found)
resize_pvc_again_example =
    resize_pvc_again memory memory-Lawful (holding copied) (bot "persistent")
      (claim_named "bot-home-v2" "10Gi") "ns" "bot" "bot-home-v2" "20Gi" "delete"
      copied_again-IsMigrated refl

abbrev owned_claim : Pvc
owned_claim = record (claim_named "bot-home" "5Gi") {
  meta = record (object_meta "bot-home" "ns" []) {
    owner_references =
        record { kind = "ClawAgent"; name = "bot"; uid = ""; controller = true } ∷ [];
  };
}

synced :
    (sync_pvc_owner_refs memory
      (bot "persistent")
      (claim_named "bot-home" "5Gi")
      reclaim_policy_delete
      (holding one_claim)).0
    ≡ ok owned_claim
unfolding memory holding sync_pvc_owner_refs
synced = refl

sync_pvc_owner_refs-follows_example :
    (reclaim_policy_delete ≡ reclaim_policy_delete
      → nonempty owned_claim.meta.owner_references ≡ true)
    × (reclaim_policy_delete ≡ reclaim_policy_retain
        → nonempty owned_claim.meta.owner_references ≡ false)
    × (owned_claim.requests ≡ (claim_named "bot-home" "5Gi").requests)
    × ((p' : Pvc) × (memory.get pvc
            (key "bot-home" "ns")
            (sync_pvc_owner_refs memory
              (bot "persistent")
              (claim_named "bot-home" "5Gi")
              reclaim_policy_delete
              (holding one_claim)).1
          ≡ ok p')
        × (p'.meta.owner_references ≡ owned_claim.meta.owner_references)
        × (p'.requests ≡ (claim_named "bot-home" "5Gi").requests))
sync_pvc_owner_refs-follows_example =
    sync_pvc_owner_refs-follows memory memory-Lawful (bot "persistent")
      (claim_named "bot-home" "5Gi") owned_claim reclaim_policy_delete (holding one_claim) home
      synced
