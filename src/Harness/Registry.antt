-- ===== src/Harness/Registry.antt =====
-- internal/harness/registry.go
use hackaway_repo.Base.{String, ◌==◌, if◌then◌else◌}
use hackaway_repo.Harness.Json.{Encoding}
use hackaway_repo.Harness.Contract.{Harness}
use hackaway_repo.Harness.OpenClaw.{openclaw, observeclaw}
use hackaway_repo.Harness.Hermes.{hermes}

unfoldable pub for_type : Encoding → String → Harness
for_type e t =
    if t == "observeclaw" then observeclaw e else (if t == "hermes" then hermes e else openclaw e)
