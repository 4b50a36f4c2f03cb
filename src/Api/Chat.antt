-- ===== src/Api/Chat.antt =====
-- internal/api/chat.go: a message is relayed to the gateway of an agent.
use hackaway_repo.Base.{
  ℤ, pos, is_zero, ℕ, String, none, some, List, [], ◌∷◌, ◌==◌, concat, append, decimal,
  if◌then◌else◌,
}
use hackaway_repo.Kube.Objects.{ServicePort}
use hackaway_repo.Client.{
  agent, gateway, service, Error, wrap, Result, Client, M, pure, fail, ◌>>=◌, attempt, reads, lift,
  wrapping,
}
use hackaway_repo.Agent.Volume.{key}
use hackaway_repo.Api.Http.{Request, Writer, raw, write, set_header, write_header, http_error}

abbrev pub default_openclaw_gateway_port : ℤ
default_openclaw_gateway_port = pos 18789

abbrev pub default_gateway_port : ℤ
default_gateway_port = pos 8443

-- chatRequest
pub record ChatRequest : Type 0 where
  pub role : String
  pub content : String

-- json.Decode of a request, json.Marshal of the request for the gateway, http.NewRequest, the
-- call of the gateway, which answers with a status and a body, and err.Error().
pub record Relay : Type 0 where
  pub decode_chat : String → Result ChatRequest
  pub marshal_chat : String → List ChatRequest → Result String
  pub new_request : String → Result (Unit {0})
  pub post : String → String → Result (ℕ × String)
  pub error_text : Error → String

-- The port of the first entry of that name, 0 if there is none.
unfoldable pub find_service_port : String → List ServicePort → ℤ
find_service_port name [] = pos 0
find_service_port name (p ∷ ports) =
    let rest = find_service_port name ports in if p.name == name then p.port else rest

abbrev or_port : ℤ → ℤ → ℤ
or_port d port = if is_zero port then d else port

unfoldable pub cluster_url : String → String → ℤ → String
cluster_url name ns port =
    concat ("http://" ∷ name ∷ "." ∷ ns ∷ ".svc.cluster.local:" ∷ decimal port ∷ [])

-- getting <what> "<name>": <error>
abbrev getting : String → String → String
getting what name = concat ("getting " ∷ what ∷ " \"" ∷ name ∷ "\"" ∷ [])

module _ (c : Client) (namespace : String) where
  open c use {State, get}

  unfoldable pub resolve_gateway_from_cr : String → M State String
  unfolding cluster_url
  resolve_gateway_from_cr name = do
    gw ← wrapping (getting "gateway" name) (reads (get gateway (key name namespace)))
    pure
        (cluster_url (append name "-gateway") namespace (or_port default_gateway_port gw.spec.port))

  unfoldable pub resolve_gateway_url : String → M State String
  unfolding resolve_gateway_from_cr find_service_port cluster_url
  resolve_gateway_url name = do
    a ← wrapping (getting "agent" name) (reads (get agent (key name namespace)))
    attempt (reads (get service (key name namespace)))
        (λ svc. pure (
          cluster_url name namespace
            (or_port default_openclaw_gateway_port (find_service_port "gateway" svc.spec.ports))))
        λ e.
          if a.spec.gateway == ""
          then fail (wrap (getting "service" name) e)
          else resolve_gateway_from_cr a.spec.gateway

  module _ (relay : Relay) where
    open relay use {decode_chat, marshal_chat, new_request, post, error_text}

    -- http.Error of a message with the error's text after it
    abbrev refuse : String → ℕ → Writer → Error → M State Writer
    refuse prefix status w e = pure (http_error (append prefix (error_text e)) status w)

    unfoldable pub answer : Writer → ℕ × String → Writer
    answer w (status, body) = write (raw body) (
        write_header status (
          set_header "Access-Control-Allow-Origin" "*"
            (set_header "Content-Type" "application/json" w)))

    unfoldable pub relay_chat : String → ChatRequest → Writer → M State Writer
    unfolding resolve_gateway_url answer
    relay_chat name req w =
        attempt (resolve_gateway_url name)
          (λ url.
            attempt (lift (marshal_chat "openclaw/default" (req ∷ [])))
              (λ body.
                attempt (lift (new_request (append url "/v1/chat/completions")))
                  (λ _.
                    attempt (lift (post (append url "/v1/chat/completions") body))
                      (λ resp. pure (answer w resp)) (refuse "calling agent gateway: " 502 w))
                  (refuse "building upstream request: " 500 w))
              (refuse "marshalling request: " 500 w))
          (refuse "resolving gateway: " 404 w)

    -- A body that cannot be read is one that cannot be decoded.
    unfoldable pub handle_agent_chat : Request → Writer → String → M State Writer
    unfolding relay_chat
    handle_agent_chat r w name =
        if r.method == "POST"
        then attempt (lift (decode_chat (elim r.body [ none ↦ "" | some b ↦ b ])))
            (λ req.
              if req.content == ""
              then pure (http_error "content is required" 400 w)
              else relay_chat name req w)
            (refuse "invalid request body: " 400 w)
        else pure (http_error "method not allowed" 405 w)
