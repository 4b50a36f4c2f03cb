-- ===== src/Api/Routes.antt =====
-- internal/api/crud.go and server.go: which handler answers a request.
use hackaway_repo.Base.{String, ◌&&◌, none, some, List, [], ◌∷◌, ◌==◌, append, if◌then◌else◌}
use hackaway_repo.Client.{
  Kind, Object, agent, channel, policy, skill_set, gateway, observability, Client, M, pure,
}
use hackaway_repo.Api.Paths.{trim_slash, split_slash, strip_prefix}
use hackaway_repo.Api.Http.{Request, Writer, fields, write_json, http_error, with_cors}
use hackaway_repo.Api.Crud.{
  Codec, handle_get_one, handle_list, handle_create, handle_update, handle_delete,
}
use hackaway_repo.Api.Chat.{Relay, handle_agent_chat}
use hackaway_repo.Api.Logs.{Streaming, handle_agent_logs}
use hackaway_repo.Api.Server.{handle_summary}
use hackaway_repo.Api.Activity.{Logs, handle_activity}

-- What of the world outside the server uses.
pub record Environment : Type 0 where
  pub codec : Codec
  pub relay : Relay
  pub streaming : Streaming
  pub logs : Logs
  pub new_obj : (k : Kind) → Object k

-- The resources and the paths that they are registered at.
abbrev pub resources : List (String × Kind)
resources =
    ("/api/agents", agent)
    ∷ ("/api/channels", channel)
    ∷ ("/api/policies", policy)
    ∷ ("/api/skillsets", skill_set)
    ∷ ("/api/gateways", gateway)
    ∷ ("/api/observabilities", observability)
    ∷ []

module _ (c : Client) (env : Environment) (namespace : String) where
  open c use {State}

  not_allowed : Writer → M State Writer
  not_allowed w = pure (http_error "method not allowed" 405 w)

  -- A single resource, by the method.
  unfoldable pub handle_single : (k : Kind) → Request → String → Writer → M State Writer
  unfolding not_allowed
  handle_single k r name w =
      if r.method == "GET"
      then handle_get_one c env.codec namespace k name w
      else if r.method == "PUT"
      then handle_update c env.codec namespace k r.body name w
      else if r.method == "DELETE"
      then handle_delete c env.codec namespace k name w
      else not_allowed w

  -- What is below a resource: the log of an agent and the chat with it.
  unfoldable pub handle_sub : String → Request → String → String → Writer → M State Writer
  handle_sub path r name sub w =
      if path == "/api/agents" && sub == "logs"
      then handle_agent_logs c namespace env.streaming r w name
      else if path == "/api/agents" && sub == "chat"
      then handle_agent_chat c namespace env.relay r w name
      else pure (http_error "unknown sub-resource" 404 w)

  -- The pattern path + "/", by what of the path comes after it.
  unfoldable pub handle_below : String → Kind → Request → String → Writer → M State Writer
  unfolding handle_single handle_sub
  handle_below path k r below w =
      let rest = trim_slash below in
      if rest == ""
      then pure (http_error "resource name is required" 400 w)
      else elim (split_slash rest).1 [
        | none ↦ handle_single k r (split_slash rest).0 w
        | some sub ↦ handle_sub path r (split_slash rest).0 sub w
      ]

  -- The pattern path itself. No handler was registered there before.
  unfoldable pub handle_collection : Kind → Request → Writer → M State Writer
  unfolding not_allowed
  handle_collection k r w =
      if r.method == "POST"
      then handle_create c env.codec namespace k (env.new_obj k) r.body w
      else if r.method == "GET"
      then handle_list c env.codec namespace k w
      else not_allowed w

  -- The first of the resources that the path is, or is below.
  unfoldable pub handle_resources : List (String × Kind) → Request → Writer → M State Writer
  unfolding handle_collection handle_below
  handle_resources [] r w = pure (http_error "404 page not found" 404 w)
  handle_resources ((path, k) ∷ more) r w =
      let others = handle_resources more r w in
      if r.path == path
      then handle_collection k r w
      else elim (strip_prefix (append path "/") r.path) [
        | some below ↦ handle_below path k r below w
        | none ↦ others
      ]

  unfoldable pub handle_request : Request → Writer → M State Writer
  unfolding handle_resources
  handle_request r w =
      if r.path == "/api/summary"
      then handle_summary c env.codec.error_text namespace w
      else if r.path == "/api/activity"
      then handle_activity c env.logs namespace w
      else if r.path == "/api/health"
      then pure (write_json (fields (("status", "ok") ∷ [])) w)
      else handle_resources resources r w

  unfoldable pub serve : Request → Writer → M State Writer
  unfolding handle_request with_cors
  serve = with_cors handle_request
