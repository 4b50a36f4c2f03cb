-- ===== src/Dashboard/Card.antt =====
-- internal/controller/fleet_dashboard.go: what the page shows of an agent.
use hackaway_repo.Base.{
  ℤ, String, List, [], ◌∷◌, ◌++◌, ◌==◌, map, join, concat, append, decimal, to_lower, escape_html,
  if◌then◌else◌,
}

pub record AgentInfo : Type 0 where
  pub name : String
  pub phase : String
  pub model : String
  pub fallback_model : String
  pub provider : String
  pub gateway : String
  pub policy : String
  pub skill_set : String
  pub observability : String
  pub channels : List String
  pub soul : String
  pub budget_daily : ℤ
  pub budget_monthly : ℤ
  pub downgrade_model : String
  pub tool_deny : List String
  pub restart_policy : String
  pub max_runtime : String
  pub idle_hibernate : ℤ

unfoldable pub phase_color : String → String
phase_color phase =
    if phase == "Running"
    then "#4ecca3"
    else if phase == "Pending"
    then "#ffd369"
    else if phase == "Error"
    then "#fc5185"
    else "#e0e0e0"

abbrev pub dim_none : String
dim_none = "<span class=\"dim\">none</span>"

unfoldable pub tag : String → String → String
tag opening s = append opening (append (escape_html s) "</span>")

-- The tags of a list, or the word none.
unfoldable pub tags : String → List String → String
unfolding tag
tags opening [] = dim_none
tags opening (x ∷ xs) = join " " (map (tag opening) (x ∷ xs))

unfoldable pub text_or_none : String → String
text_or_none s = if s == "" then dim_none else escape_html s

unfoldable pub soul_html : String → String
soul_html s =
    if s == ""
    then ""
    else concat ("<div class=\"soul\"><em>\"" ∷ escape_html s ∷ "\"</em></div>" ∷ [])

unfoldable pub card_header : AgentInfo → List String
card_header a =
    "<div class=\"agent-card\">\n  <div class=\"agent-header\">\n"
    ∷ "    <span class=\"agent-name\" style=\"color:"
    ∷ phase_color a.phase
    ∷ "\">"
    ∷ escape_html a.name
    ∷ "</span>\n    <span class=\"phase-badge phase-"
    ∷ escape_html (to_lower a.phase)
    ∷ "\">"
    ∷ escape_html a.phase
    ∷ "</span>\n  </div>\n  <div class=\"agent-body\">\n"
    ∷ []

-- A line of a group: its label and its text.
unfoldable pub card_field : String → String → List String
card_field label text =
    "      <div class=\"field\"><span class=\"label\">" ∷ label ∷ ":</span> " ∷ text ∷ "</div>\n"
    ∷ []

unfoldable pub card_group : String → List String → List String
card_group title fields =
    ("    <div class=\"field-group\">\n      <h4>" ∷ title ∷ "</h4>\n" ∷ [])
    ++ (fields ++ "    </div>\n" ∷ [])

-- A group of one line without a label.
unfoldable pub tags_group : String → String → List String
unfolding card_group
tags_group title text = card_group title ("      <div class=\"field\">" ∷ text ∷ "</div>\n" ∷ [])

unfoldable pub card_body : AgentInfo → List String
unfolding card_field card_group tags_group
card_body a =
    card_group "Model" (
      card_field "Provider" (escape_html a.provider)
      ++ (card_field "Model" (escape_html a.model)
          ++ card_field "Fallback" (text_or_none a.fallback_model)))
    ++ (card_group "References" (
          card_field "Gateway" (escape_html a.gateway)
          ++ (card_field "Policy" (escape_html a.policy)
              ++ (card_field "SkillSet" (escape_html a.skill_set)
                  ++ card_field "Observability" (escape_html a.observability))))
        ++ (tags_group "Channels" (tags "<span class=\"tag\">" a.channels)
            ++ (card_group "Budget" (
                  card_field "Daily" (append "$" (decimal a.budget_daily))
                  ++ (card_field "Monthly" (append "$" (decimal a.budget_monthly))
                      ++ card_field "Downgrade to" (text_or_none a.downgrade_model)))
                ++ (tags_group "Tool Deny List" (tags "<span class=\"tag deny\">" a.tool_deny)
                    ++ card_group "Lifecycle" (
                        card_field "Restart" (escape_html a.restart_policy)
                        ++ (card_field "Max Runtime" (escape_html a.max_runtime)
                            ++ card_field "Idle Hibernate"
                                (append (decimal a.idle_hibernate) " min")))))))

unfoldable pub agent_card : AgentInfo → String
unfolding card_header card_body
agent_card a =
    concat
      (card_header a ++ (card_body a ++ ("    " ∷ soul_html a.soul ∷ "\n  </div>\n</div>\n" ∷ [])))
