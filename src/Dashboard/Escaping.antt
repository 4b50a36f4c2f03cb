-- ===== src/Dashboard/Escaping.antt =====
-- The texts of users in the page, and the characters `<` that open its tags.
use hackaway_repo.Base.{
  String, Bool, true, false, List, [], ◌∷◌, ◌==◌, ◌≡◌, refl, sym, ◌∙◌, map, join, concat, append,
  escape_html, to_lower, arith, if◌then◌else◌,
}
use hackaway_repo.Base.Text.Marks.{
  marks, marks-append, marks-escape_html, Alike, ends, ◌&◌, marks-concat, Alike-append,
}
use hackaway_repo.Dashboard.Card.{
  AgentInfo, phase_color, tag, tags, text_or_none, soul_html, card_header, card_field, card_group,
  tags_group, card_body, agent_card,
}

-- A text with nothing of it left but whether it is empty.
blank_text : String → String
blank_text s = if s == "" then "" else "x"

-- An agent whose texts are all blank. Its numbers, and how many channels and tools it has, are kept.
unfoldable pub blank : AgentInfo → AgentInfo
unfolding blank_text
blank a = record {
  name = blank_text a.name;
  phase = blank_text a.phase;
  model = blank_text a.model;
  fallback_model = blank_text a.fallback_model;
  provider = blank_text a.provider;
  gateway = blank_text a.gateway;
  policy = blank_text a.policy;
  skill_set = blank_text a.skill_set;
  observability = blank_text a.observability;
  channels = map blank_text a.channels;
  soul = blank_text a.soul;
  budget_daily = a.budget_daily;
  budget_monthly = a.budget_monthly;
  downgrade_model = blank_text a.downgrade_model;
  tool_deny = map blank_text a.tool_deny;
  restart_policy = blank_text a.restart_policy;
  max_runtime = blank_text a.max_runtime;
  idle_hibernate = a.idle_hibernate;
}

escaped : (s t : String) → marks (escape_html s) ≡ marks (escape_html t)
escaped s t = marks-escape_html s ∙ sym (marks-escape_html t)

-- A text chosen by whether another is empty.
blank_choice :
    (s : String) (f : String → String) (none : String)
    → ((t u : String) → marks (f t) ≡ marks (f u))
    → marks (if s == "" then none else f s)
      ≡ marks (if blank_text s == "" then none else f (blank_text s))
unfolding blank_text
blank_choice s f none same = by_emptiness (s == "")
  where
    by_emptiness :
        (b : Bool)
        → marks (if b then none else f s)
          ≡ marks (if (if b then "" else "x") == "" then none else f (if b then "" else "x"))
    by_emptiness true = refl
    by_emptiness false = same s "x"

text_or_none-Alike : (s : String) → marks (text_or_none s) ≡ marks (text_or_none (blank_text s))
unfolding text_or_none
text_or_none-Alike s = blank_choice s escape_html _ escaped

tag-Alike : (o s t : String) → marks (tag o s) ≡ marks (tag o t)
unfolding tag
tag-Alike o s t = omega (
  arith,
  marks-append o (append (escape_html s) "</span>"),
  marks-append o (append (escape_html t) "</span>"),
  marks-append (escape_html s) "</span>",
  marks-append (escape_html t) "</span>",
  escaped s t,
)

tags-Alike :
    (o : String) (xs : List String) → marks (tags o xs) ≡ marks (tags o (map blank_text xs))
unfolding tags join
tags-Alike o [] = refl
tags-Alike o (x ∷ []) = tag-Alike o x (blank_text x)
tags-Alike o (x ∷ y ∷ xs) = omega (
  arith,
  marks-append (tag o x) (append " " (tags o (y ∷ xs))),
  marks-append (tag o (blank_text x)) (append " " (tags o (map blank_text (y ∷ xs)))),
  marks-append " " (tags o (y ∷ xs)),
  marks-append " " (tags o (map blank_text (y ∷ xs))),
  tag-Alike o x (blank_text x),
  tags-Alike o (y ∷ xs),
)

marks-phase_color : (s : String) → marks (phase_color s) ≡ 0
unfolding phase_color marks
marks-phase_color s = by_phase (s == "Running") (s == "Pending") (s == "Error")
  where
    by_phase :
        (b₁ b₂ b₃ : Bool)
        → marks (
            if b₁ then "#4ecca3" else if b₂ then "#ffd369" else if b₃ then "#fc5185" else "#e0e0e0")
          ≡ 0
    by_phase true b₂ b₃ = refl
    by_phase false true b₃ = refl
    by_phase false false true = refl
    by_phase false false false = refl

phase_color-Alike : (s : String) → marks (phase_color s) ≡ marks (phase_color (blank_text s))
phase_color-Alike s = marks-phase_color s ∙ sym (marks-phase_color (blank_text s))

plain : (s : String) → marks (escape_html s) ≡ marks (escape_html (blank_text s))
plain s = escaped s (blank_text s)

soul_html-Alike : (s : String) → marks (soul_html s) ≡ marks (soul_html (blank_text s))
unfolding soul_html
soul_html-Alike s =
    blank_choice s
      (λ t. concat ("<div class=\"soul\"><em>\"" ∷ escape_html t ∷ "\"</em></div>" ∷ [])) ""
      λ t u. marks-concat (refl & escaped t u & refl & ends)

card_field-Alike :
    (label s t : String) → marks s ≡ marks t → Alike (card_field label s) (card_field label t)
unfolding card_field
card_field-Alike label s t p = refl & refl & refl & p & refl & ends

card_group-Alike :
    (title : String) {ss ts : List String}
    → Alike ss ts
    → Alike (card_group title ss) (card_group title ts)
unfolding card_group
card_group-Alike title p = refl & refl & refl & Alike-append p (refl & ends)

tags_group-Alike :
    (title s t : String) → marks s ≡ marks t → Alike (tags_group title s) (tags_group title t)
unfolding tags_group
tags_group-Alike title s t p = card_group-Alike title (refl & p & refl & ends)

card_header-Alike : (a : AgentInfo) → Alike (card_header a) (card_header (blank a))
unfolding card_header blank
card_header-Alike a =
    refl
    & refl
    & phase_color-Alike a.phase
    & refl
    & plain a.name
    & refl
    & escaped (to_lower a.phase) (to_lower (blank_text a.phase))
    & refl
    & plain a.phase
    & refl
    & ends

card_body-Alike : (a : AgentInfo) → Alike (card_body a) (card_body (blank a))
unfolding card_body blank
card_body-Alike a =
    Alike-append
      (card_group-Alike "Model" (
        Alike-append (card_field-Alike "Provider" _ _ (plain a.provider)) (
          Alike-append (card_field-Alike "Model" _ _ (plain a.model))
            (card_field-Alike "Fallback" _ _ (text_or_none-Alike a.fallback_model)))))
      (Alike-append
        (card_group-Alike "References" (
          Alike-append (card_field-Alike "Gateway" _ _ (plain a.gateway)) (
            Alike-append (card_field-Alike "Policy" _ _ (plain a.policy)) (
              Alike-append (card_field-Alike "SkillSet" _ _ (plain a.skill_set))
                (card_field-Alike "Observability" _ _ (plain a.observability))))))
        (Alike-append (tags_group-Alike "Channels" _ _ (tags-Alike _ a.channels)) (
          Alike-append
            (card_group-Alike "Budget" (
              Alike-append (card_field-Alike "Daily" _ _ refl) (
                Alike-append (card_field-Alike "Monthly" _ _ refl)
                  (card_field-Alike "Downgrade to" _ _ (text_or_none-Alike a.downgrade_model)))))
            (Alike-append (tags_group-Alike "Tool Deny List" _ _ (tags-Alike _ a.tool_deny)) (
              card_group-Alike "Lifecycle" (
                Alike-append (card_field-Alike "Restart" _ _ (plain a.restart_policy)) (
                  Alike-append (card_field-Alike "Max Runtime" _ _ (plain a.max_runtime))
                    (card_field-Alike "Idle Hibernate" _ _ refl))))))))

-- The card of an agent has as many characters `<` as the card of the agent whose texts are all
-- blank: none of its texts adds one. The numbers, how many channels and denied tools there are, and
-- which texts are empty, are the same for both agents.
pub agent_card-blank : (a : AgentInfo) → marks (agent_card a) ≡ marks (agent_card (blank a))
unfolding agent_card blank blank_text
agent_card-blank a = marks-concat (
    Alike-append (card_header-Alike a)
      (Alike-append (card_body-Alike a) (refl & soul_html-Alike a.soul & refl & ends)))
