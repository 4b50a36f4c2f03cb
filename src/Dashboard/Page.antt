-- ===== src/Dashboard/Page.antt =====
-- internal/controller/fleet_dashboard.go, `generateFleetDashboardHTML`.
use hackaway_repo.Base.{
  ℕ, suc, pos, is_zero, String, List, [], ◌∷◌, ◌++◌, ◌==◌, ◌&&◌, map, length, concat, decimal,
  if◌then◌else◌,
}
use hackaway_repo.Dashboard.Opening.{opening_lines, card_style_lines, flow_style_lines}
use hackaway_repo.Dashboard.Closing.{closing_lines}
use hackaway_repo.Dashboard.Card.{AgentInfo, phase_color, agent_card}

-- phaseCount[phase]
unfoldable pub phase_count : String → List AgentInfo → ℕ
phase_count phase [] = 0
phase_count phase (a ∷ agents) =
    let rest = phase_count phase agents in if a.phase == phase then suc rest else rest

unfoldable pub phase_card : String → ℕ → String
phase_card phase count = concat (
    "<div class=\"summary-card\"><div class=\"summary-value\" style=\"color:"
    ∷ phase_color phase
    ∷ "\">"
    ∷ decimal (pos count)
    ∷ "</div><div class=\"summary-label\">"
    ∷ phase
    ∷ "</div></div>\n"
    ∷ [])

-- A card for each phase, but none for errors where there are none.
unfoldable pub phase_cards : List String → List AgentInfo → List String
unfolding phase_count phase_card
phase_cards [] agents = []
phase_cards (phase ∷ phases) agents =
    let count = phase_count phase agents in
    (if is_zero (pos count) && phase == "Error" then [] else phase_card phase count ∷ [])
    ++ phase_cards phases agents

abbrev pub shown_phases : List String
shown_phases = "Running" ∷ "Pending" ∷ "Error" ∷ []

unfoldable pub generate_fleet_dashboard_html : List AgentInfo → String
unfolding phase_cards
generate_fleet_dashboard_html agents = concat (
    opening_lines
    ++ (card_style_lines
        ++ (flow_style_lines
            ++ (("    <div class=\"summary-value\" style=\"color:#4ecca3\">"
                  ∷ decimal (pos (length agents))
                  ∷ "</div>\n    <div class=\"summary-label\">Total Agents</div>\n  </div>\n"
                  ∷ [])
                ++ (phase_cards shown_phases agents
                    ++ ("</div>\n\n<h2>Agent Fleet</h2>\n<div class=\"agents-grid\">\n"
                        ∷ (map agent_card agents ++ ("</div>\n\n" ∷ closing_lines))))))))
