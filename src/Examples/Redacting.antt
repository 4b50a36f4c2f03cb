-- ===== src/Examples/Redacting.antt =====
-- The theorems on the redacting proxy, with patterns that match a whole text.
use hackaway_repo.Base.{
  String, false, none, some, List, [], ◌∷◌, ◌≡◌, refl, ◌==◌, if◌then◌else◌, lookup, append, ◌||◌,
}
use hackaway_repo.Gateway.Server.{
  text, listing, nil, cons, mapping, Dict, blank, entry, get, get_or, set, Regex, messages_of,
  mappings, redact_messages, forward_headers, Upstream, proxy_messages,
}
use hackaway_repo.Gateway.Server.Messages.{AllPassed}
use hackaway_repo.Gateway.Server.Proxy.{proxy_messages-Passed}

-- A pattern matches the text that it is.
abbrev whole : Regex
whole = record {
  Pattern = String;
  compile = λ p. some p;
  source = λ p. p;
  finditer = λ p s. if s == p then s ∷ [] else [];
  sub = λ p r s. some (if s == p then r else s);
}

abbrev secrets : List (String × String)
secrets = ("secret", "[REDACTED]") ∷ []

-- {"model": "m", "messages": [{"role": "user", "content": "secret"}]}
abbrev asked : Dict
asked = entry "model" (text "m") (
    entry "messages"
      (listing
        (cons (mapping (entry "role" (text "user") (entry "content" (text "secret") blank))) nil))
      blank)

abbrev answered : Upstream
answered = record {
  url = "https://api/v1/messages";
  body = entry "model" (text "m") (
      entry "messages"
        (listing (
          cons (mapping (entry "role" (text "user") (entry "content" (text "[REDACTED]") blank)))
            nil))
        blank);
  headers =
      ("Content-Type", "application/json")
      ∷ ("x-api-key", "server-key")
      ∷ ("authorization", "agent-key")
      ∷ [];
}

-- What the agent sends as every header.
abbrev from_agent : String → String
from_agent k = if k == "authorization" || k == "x-api-key" then "agent-key" else ""

sent :
    proxy_messages whole secrets "https://api" "server-key" (λ v. false) from_agent asked
    ≡ some (
      answered,
      record { original = "secret"; replacement = "[REDACTED]"; pattern = "secret" } ∷ [],
    )
unfolding proxy_messages get redact_messages set forward_headers
sent = refl

proxy_messages-Passed_example :
    (messages : List Dict) × (cleaned : List Dict) × (messages_of
        (get_or "messages" (listing nil) asked)
      ≡ some messages)
    × AllPassed whole secrets messages cleaned
    × (answered.url ≡ append "https://api" "/v1/messages")
    × (get "messages" answered.body ≡ (
        if "messages" == "messages"
        then some (listing (mappings cleaned))
        else get "messages" asked))
    × (lookup "x-api-key" answered.headers
        ≡ (if "server-key" == "" then none else some "server-key"))
proxy_messages-Passed_example =
    proxy_messages-Passed whole secrets "https://api" "server-key" (λ v. false) from_agent asked
      answered (record { original = "secret"; replacement = "[REDACTED]"; pattern = "secret" } ∷ [])
      "messages" sent
