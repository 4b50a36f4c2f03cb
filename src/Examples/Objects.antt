-- ===== src/Examples/Objects.antt =====
-- The theorems on secrets and on the objects that a reconciliation keeps, at the agent of
-- Examples/Data.
use hackaway_repo.Base.{◌≡◌, ◌&&◌, ◌==◌, not, [], ◌∷◌, contains, NoDuplicates}
use hackaway_repo.Agent.Secrets.{injected_secrets}
use hackaway_repo.Agent.Secrets.Laws.{
  injected_secrets-wanted, injected_secrets-NoDuplicates, secret_refs, wanted,
}
use hackaway_repo.Examples.Data.{bot, slack}

injected_secrets-wanted_example :
    contains "slack-keys"
      (secret_refs (injected_secrets (bot "persistent") "" (slack ∷ [])).env_from)
    ≡ (wanted (bot "persistent") "" (slack ∷ []) "slack-keys" && not ("slack-keys" == ""))
injected_secrets-wanted_example =
    injected_secrets-wanted (bot "persistent") "" (slack ∷ []) "slack-keys"

injected_secrets-NoDuplicates_example :
    NoDuplicates
      (secret_refs (injected_secrets (bot "persistent") "" (slack ∷ slack ∷ [])).env_from)
injected_secrets-NoDuplicates_example =
    injected_secrets-NoDuplicates (bot "persistent") "" (slack ∷ slack ∷ [])
