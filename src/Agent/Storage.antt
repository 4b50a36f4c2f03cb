-- ===== src/Agent/Storage.antt =====
-- internal/controller/clawagent_controller.go: the claim of an agent is created, kept in step with
-- its spec, and cleaned up when the workspace is ephemeral.
pub mod Keeps
pub mod Frames
pub mod Backed
use hackaway_repo.Base.{String, none, some, List, [], ◌∷◌, append, if◌then◌else◌}
use hackaway_repo.Kube.Objects.{Quantity, Pvc}
use hackaway_repo.V1.Agent.{
  ClawAgent, pvc_suffix, pvc_resize_suffix, resolved_storage_size, resolved_reclaim_policy,
}
use hackaway_repo.Client.{
  pvc, key_of, is_not_found, panic, Client, M, pure, fail, ◌>>=◌, ◌>>◌, attempt, reads, lift,
}
use hackaway_repo.Agent.Volume.{
  active_pvc_name, build_pvc, storage_of, is_gt, key, with_owner, sync_pvc_owner_refs,
}
use hackaway_repo.Agent.Resize.{resize_pvc}

abbrev owner_message : String
owner_message = "setting owner reference on PVC"

module _ (c : Client) where
  open c use {
    State, get, create, update, delete, set_controller_reference, must_parse, zero_quantity, cmp,
  }

  -- The write of a claim that is not there yet.
  create_pvc : ClawAgent → Pvc → M State ClawAgent
  create_pvc owner p = create pvc p >> pure owner

  -- An existing claim: its owners, then its size. A smaller request is only logged.
  unfoldable pub adjust_pvc :
      ClawAgent → Pvc → String → String → String → Quantity → String → M State ClawAgent
  adjust_pvc owner existing ns name pvc_name requested reclaim_policy = do
    synced ← sync_pvc_owner_refs c owner existing reclaim_policy
    if is_gt (cmp requested (storage_of zero_quantity synced))
        then resize_pvc c owner synced ns name pvc_name requested reclaim_policy
        else pure owner

  look_up_pvc : ClawAgent → Pvc → String → String → String → String → Quantity → M State ClawAgent
  unfolding create_pvc
  look_up_pvc owner p ns name pvc_name policy size =
      attempt (reads (get pvc (key pvc_name ns)))
        (λ existing. adjust_pvc owner existing ns name pvc_name size policy)
        λ e. if is_not_found e then create_pvc owner p else fail e

  unfoldable pub ensure_parsed_pvc :
      ClawAgent → String → String → String → String → Quantity → M State ClawAgent
  unfolding look_up_pvc
  ensure_parsed_pvc owner ns name pvc_name policy size = do
    p ←
        with_owner c owner_message owner policy
          (build_pvc pvc_name ns name size owner.spec.workspace)
    look_up_pvc owner p ns name pvc_name policy size

  -- resource.MustParse panics on a text that is no quantity.
  unfoldable pub ensure_pvc : ClawAgent → String → String → M State ClawAgent
  ensure_pvc owner ns name = elim (must_parse (resolved_storage_size owner.spec.workspace)) [
    | none ↦ lift panic
    | some size ↦
        ensure_parsed_pvc owner ns name (active_pvc_name owner name)
          (resolved_reclaim_policy owner.spec.workspace) size
  ]

  -- The loop over both suffixes; a claim that is not there is passed over.
  unfoldable pub cleanup_pvcs : String → String → List String → M State (Unit {0})
  cleanup_pvcs ns name [] = pure tt
  cleanup_pvcs ns name (suffix ∷ suffixes) =
      attempt (reads (get pvc (key (append name suffix) ns)))
        (λ existing.
          attempt (delete pvc (key_of pvc existing)) (λ _. cleanup_pvcs ns name suffixes)
            λ e. if is_not_found e then cleanup_pvcs ns name suffixes else fail e)
        λ e. if is_not_found e then cleanup_pvcs ns name suffixes else fail e

  unfoldable pub cleanup_orphaned_pvc : String → String → M State (Unit {0})
  unfolding cleanup_pvcs
  cleanup_orphaned_pvc ns name = cleanup_pvcs ns name (pvc_suffix ∷ pvc_resize_suffix ∷ [])
