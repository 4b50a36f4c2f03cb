-- ===== src/Gateway/Script.antt =====
-- internal/controller/clawgateway_controller.go, `gatewayServerScript`: the text of the server.
pub mod Redacting
pub mod Proxying
pub mod Classifying
pub mod Starting
use hackaway_repo.Base.{String, ◌++◌, concat}
use hackaway_repo.Gateway.Script.Redacting.{redacting_lines}
use hackaway_repo.Gateway.Script.Proxying.{proxying_lines}
use hackaway_repo.Gateway.Script.Classifying.{classifying_lines}
use hackaway_repo.Gateway.Script.Starting.{starting_lines}

unfoldable pub gateway_server_script : String
gateway_server_script =
    concat (redacting_lines ++ (proxying_lines ++ (classifying_lines ++ starting_lines)))
