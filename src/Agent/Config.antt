-- ===== src/Agent/Config.antt =====
-- internal/controller/clawagent_controller.go: the config maps of an agent.
pub mod Keys
pub mod Away
use hackaway_repo.Base.{
  String, none, some, List, [], ◌∷◌, ◌++◌, ◌==◌, ◌&&◌, nonempty, append, concat, insert,
  if◌then◌else◌,
}
use hackaway_repo.Kube.Objects.{ConfigMap}
use hackaway_repo.V1.Agent.{ClawAgent, A2APeer}
use hackaway_repo.V1.SkillSet.{SkillEntry}
use hackaway_repo.Client.{message, wrap, Result, ok, err}
use hackaway_repo.Harness.Contract.{Harness, ConfigInput}
use hackaway_repo.Harness.OpenClaw.Providers.{env_name}
use hackaway_repo.Kube.Build.{object_meta}
use hackaway_repo.Agent.Labels.{agent_labels}

abbrev put_text : String → String → List (String × String) → List (String × String)
put_text k v m = if v == "" then m else insert k v m

unfoldable pub identity_config_map : ClawAgent → String → String → ConfigMap
identity_config_map agent ns name = record {
  meta = object_meta (append name "-identity") ns (agent_labels name);
  entries = put_text "IDENTITY.md" agent.spec.identity.agent_identity (
      put_text "USER.md" agent.spec.identity.user (put_text "SOUL.md" agent.spec.identity.soul []));
  binary_data = [];
}

unfoldable pub skill_entries : List SkillEntry → List (String × String) → List (String × String)
skill_entries [] m = m
skill_entries (s ∷ ss) m = skill_entries ss (insert s.name s.content m)

unfoldable pub skills_config_map : String → String → List SkillEntry → ConfigMap
unfolding skill_entries
skills_config_map ns name skills = record {
  meta = object_meta (append name "-skills") ns (agent_labels name);
  entries = skill_entries skills [];
  binary_data = [];
}

unfoldable pub heartbeat_md : String → String
heartbeat_md name = concat (
    "# Heartbeat — " ∷ name
    ∷ "\n\nCheck the following and respond HEARTBEAT_OK if everything is normal.\n"
    ∷ "Only raise an alert if something needs attention.\n\n- Am I responsive?\n"
    ∷ "- Are my tools accessible?\n- Is my workspace intact?\n" ∷ [])

peer_rows : List A2APeer → List String
peer_rows [] = []
peer_rows (p ∷ ps) = "| " ∷ p.name ∷ " | " ∷ p.agent_card_url ∷ " |\n" ∷ peer_rows ps

abbrev send_script : String
send_script = "node /home/node/.openclaw/workspace/plugins/a2a-gateway/skill/scripts/a2a-send.mjs "

-- The variable of the token, as TOOLS.md names it.
abbrev pub tools_variable : String → String
tools_variable name = concat ("PEER_" ∷ env_name name ∷ "_TOKEN" ∷ [])

peer_commands : String → List A2APeer → List String
peer_commands ns [] = []
peer_commands ns (p ∷ ps) =
    "**"
    ∷ p.name
    ∷ ":**\n```bash\n"
    ∷ send_script
    ∷ "--peer-url http://"
    ∷ p.name
    ∷ "."
    ∷ ns
    ∷ ".svc.cluster.local:18800 --token \"$"
    ∷ tools_variable p.name
    ∷ "\" --non-blocking --wait --message \"your message\"\n```\n\n"
    ∷ peer_commands ns ps

a2a_tools : String → List A2APeer → List String
unfolding peer_rows peer_commands
a2a_tools ns peers =
    ("## A2A Gateway (Agent-to-Agent Communication)\n\n"
      ∷ "You have an A2A Gateway plugin running on port 18800. You can talk to other agents.\n\n"
      ∷ "### Peers\n\n" ∷ "| Peer | Agent Card URL |\n" ∷ "|------|---------------|\n" ∷ [])
    ++ (peer_rows peers
        ++ (("\n### How to send a message to a peer\n\n" ∷ "Use the exec tool to run:\n\n"
              ∷ "```bash\n" ∷ send_script ∷ "\\\n  --peer-url http://<PEER_NAME>." ∷ ns
              ∷ ".svc.cluster.local:18800 \\\n" ∷ "  --token \"$PEER_<PEER_NAME_UPPER>_TOKEN\" \\\n"
              ∷ "  --non-blocking --wait \\\n" ∷ "  --message \"YOUR MESSAGE HERE\"\n" ∷ "```\n\n"
              ∷ "### Quick reference for each peer\n\n" ∷ [])
            ++ (peer_commands ns peers
                ++ ("### Tips\n\n" ∷ "- Use `--non-blocking --wait` for reliable responses\n"
                    ∷ "- The peer token is already in your environment as `$PEER_<NAME>_TOKEN`\n"
                    ∷ "- You can ask peers questions, delegate tasks, or coordinate work\n"
                    ∷ "- Each peer has their own personality and expertise — check their Agent Card\n"
                    ∷ []))))

unfoldable pub tools_md : ClawAgent → String → String → String
unfolding a2a_tools
tools_md agent ns name = concat (
    ("# Tools — " ∷ name ∷ "\n\n" ∷ [])
    ++ (if agent.spec.a2a.enabled && nonempty agent.spec.a2a.peers
        then a2a_tools ns agent.spec.a2a.peers
        else []))

-- A harness that cannot build its configuration gives no reason in the model.
unfoldable pub harness_config_map : Harness → ConfigInput → Result ConfigMap
harness_config_map h input = elim (h.build_config input) [
  | none ↦ err (wrap "building harness config" (message "marshaling"))
  | some config ↦ ok (record {
    meta =
        object_meta (append input.name h.config_map_suffix) input.namespace
          (agent_labels input.name);
    entries =
        insert "TOOLS.md" (tools_md input.agent input.namespace input.name)
          (insert "HEARTBEAT.md" (heartbeat_md input.name) ((h.config_file_name, config) ∷ []));
    binary_data = [];
  })
]
