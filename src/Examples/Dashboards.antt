-- ===== src/Examples/Dashboards.antt =====
-- The theorems on the dashboard. A page stands for its own hash.
use hackaway_repo.Base.{String, ◌≡◌, refl, ◌⊎◌, List}
use hackaway_repo.V1.Agent.{ClawAgent}
use hackaway_repo.Client.{config_map, agent, not_found, api, ok, err, Client}
use hackaway_repo.Client.Memory.{memory, holding}
use hackaway_repo.Client.Memory.Lawfulness.{memory-Lawful}
use hackaway_repo.Agent.Volume.{key}
use hackaway_repo.Base.Text.Marks.{marks}
use hackaway_repo.Dashboard.Card.{AgentInfo, agent_card}
use hackaway_repo.Dashboard.Page.{generate_fleet_dashboard_html}
use hackaway_repo.Dashboard.Update.{
  Controller, info_of, dashboard_config_map, collect_infos, show_dashboard, update_fleet_dashboard,
}
use hackaway_repo.Dashboard.Escaping.{blank, agent_card-blank}
use hackaway_repo.Dashboard.Laws.{show_dashboard_again, update_fleet_dashboard_lem}
use hackaway_repo.Dashboard.Steps.{IsShown, show_dashboard_lost}
use hackaway_repo.Examples.Data.{watched, bot}

abbrev digest : String → String
digest page = page

-- A digest that does not tell pages apart.
abbrev short_digest : String → String
short_digest page = "5f"

abbrev fresh : Controller memory.State
fresh = record { cluster = holding watched; last_dashboard_hash = "" }

agent_card-blank_example :
    marks (agent_card (info_of (bot "<script>")))
    ≡ marks (agent_card (blank (info_of (bot "<script>"))))
agent_card-blank_example = agent_card-blank (info_of (bot "<script>"))

shown : (show_dashboard memory digest "ns" "<html>" fresh).0 ≡ ok tt
unfolding memory holding show_dashboard dashboard_config_map
shown = refl

show_dashboard_again_example :
    let t = (show_dashboard memory digest "ns" "<html>" fresh).1 in
    show_dashboard memory digest "other" "<html>" t ≡ (ok tt, t)
show_dashboard_again_example =
    show_dashboard_again memory memory-Lawful digest "ns" "other" "<html>" fresh shown

updated : (update_fleet_dashboard memory short_digest "ns" fresh).0 ≡ ok tt
unfolding memory holding update_fleet_dashboard
updated = refl

update_fleet_dashboard_lem_example :
    let t = (update_fleet_dashboard memory short_digest "ns" fresh).1 in
    (agents : List ClawAgent) × (infos : List AgentInfo) × (memory.list agent "ns" fresh.cluster
      ≡ ok agents)
    × (collect_infos memory short_digest agents "ns" fresh.cluster ≡ (ok infos, fresh.cluster))
    × (t.last_dashboard_hash ≡ short_digest (generate_fleet_dashboard_html infos))
    × ((t ≡ fresh) ⊎ IsShown memory "ns" (generate_fleet_dashboard_html infos) t.cluster)
update_fleet_dashboard_lem_example =
    update_fleet_dashboard_lem memory memory-Lawful short_digest "ns" fresh updated

-- A server that creates nothing.
abbrev full_server : Client
full_server = record memory { create = λ k o s. (err (api "quota exceeded"), s) }

abbrev starting : Controller full_server.State
starting = record { cluster = holding watched; last_dashboard_hash = "" }

no_dashboard :
    full_server.get config_map (key "fleet-dashboard" "ns") starting.cluster ≡ err not_found
unfolding memory holding
no_dashboard = refl

show_dashboard_lost_example :
    let t = (show_dashboard full_server digest "ns" "<html>" starting).1 in
    ((show_dashboard full_server digest "ns" "<html>" starting).0 ≡ err (api "quota exceeded"))
    × (show_dashboard full_server digest "ns" "<html>" t ≡ (ok tt, t))
show_dashboard_lost_example =
    show_dashboard_lost full_server digest "ns" "<html>" starting not_found (api "quota exceeded")
      (λ same. cc) no_dashboard refl refl
