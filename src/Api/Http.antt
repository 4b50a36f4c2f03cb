-- ===== src/Api/Http.antt =====
-- The part of net/http that the handlers use, and `writeJSON` and `withCORS` of
-- internal/api/server.go.
use hackaway_repo.Base.{
  ℕ, String, ◌≡◌, Option, none, some, List, [], ◌∷◌, ◌++◌, ◌==◌, insert, if◌then◌else◌,
}
use hackaway_repo.Client.{Kind, Object, M, pure}
use hackaway_repo.Api.Types.{FleetSummary, ActivityEvent, AgentResponse, ChannelResponse}

-- r.Method and r.URL.Path, the body if it can be read, and the query parameters
pub record Request : Type 0 where
  pub method : String
  pub path : String
  pub body : Option String
  pub query : List (String × String)

-- What is written as the body, before it is encoded.
pub data Body : Type 0 where
  text : String → Body
  object : (k : Kind) → Object k → Body
  objects : (k : Kind) → List (Object k) → Body
  fields : List (String × String) → Body
  summary : FleetSummary → Body
  events : List ActivityEvent → Body
  agents : List AgentResponse → Body
  channels : List ChannelResponse → Body
  raw : String → Body

-- http.ResponseWriter: the header map, the status and the headers that were sent, the body
pub record Writer : Type 0 where
  pub header : List (String × String)
  pub sent : Option (ℕ × List (String × String))
  pub body : List Body

abbrev pub empty_writer : Writer
empty_writer = record { header = []; sent = none; body = [] }

-- w.Header().Set(k, v)
unfoldable pub set_header : String → String → Writer → Writer
set_header k v w = record w { header = insert k v w.header }

-- w.WriteHeader(status): the first call sends the headers, later ones do nothing.
unfoldable pub write_header : ℕ → Writer → Writer
write_header status w = elim w.sent [
  | none ↦ record w { sent = some (status, w.header) }
  | some _ ↦ w
]

-- w.Write(b): the status is 200 if none was sent.
unfoldable pub write : Body → Writer → Writer
unfolding write_header
write b w = record (write_header 200 w) { body = w.body ++ (b ∷ []) }

-- An answer of that status, with the headers that were sent with it.
abbrev pub Sent : Writer → ℕ → Type 0
Sent w status = (headers : List (String × String)) × (w.sent ≡ some (status, headers))

-- http.Error(w, message, status)
unfoldable pub http_error : String → ℕ → Writer → Writer
unfolding set_header write_header write
http_error message status w = write (text message) (
    write_header status (
      set_header "X-Content-Type-Options" "nosniff"
        (set_header "Content-Type" "text/plain; charset=utf-8" w)))

unfoldable pub write_json : Body → Writer → Writer
unfolding set_header write
write_json b w = write b (set_header "Content-Type" "application/json" w)

module _ {S : Type 0} where
  -- Every answer may be read by any page. A preflight request is answered here.
  unfoldable pub with_cors : (Request → Writer → M S Writer) → Request → Writer → M S Writer
  unfolding set_header write_header
  with_cors next r w =
      let open_to_all = set_header "Access-Control-Allow-Headers" "Content-Type" (
        set_header "Access-Control-Allow-Methods" "GET, POST, PUT, DELETE, OPTIONS"
          (set_header "Access-Control-Allow-Origin" "*" w)) in
      if r.method == "OPTIONS" then pure (write_header 204 open_to_all) else next r open_to_all
