-- ===== src/Gateway/Server/Proxy.antt =====
-- The request that the proxy sends upstream, as a whole.
use hackaway_repo.Base.{
  String, Bool, true, false, none, some, List, [], ◌∷◌, ◌++◌, ◌≡◌, refl, sym, ap, ◌∙◌, inl, inr,
  arith, Option-cases, ◌==◌, eq_iff, lookup, append, if◌then◌else◌,
}
use hackaway_repo.Gateway.Server.{
  Value, flag, listing, nil, Dict, blank, entry, get, set, get_or, Regex, Redaction,
  redact_messages, messages_of, mappings, forward_keys, forward_headers, Upstream, proxy_messages,
}
use hackaway_repo.Gateway.Server.Messages.{AllPassed, redact_messages-Passed}
use hackaway_repo.Gateway.Server.Headers.{lookup-forward_headers}

get-set :
    (j k : String) (v : Value) (d : Dict) → get j (set k v d) ≡ (if k == j then some v else get j d)
unfolding get set
get-set j k v blank = refl
get-set j k v (entry i w d) = ground (arith, eq_iff k j, eq_iff i k, eq_iff i j, get-set j k v d)

module _ (re : Regex) (patterns : List (re.Pattern × String))
    (upstream_base server_api_key : String) (truthy : Value → Bool) (header : String → String) where
  -- The key, whether or not a stream is asked for.
  sent_key :
      (b : Bool)
      → lookup "x-api-key" (
          if b
          then forward_headers server_api_key header ++ ("Accept-Encoding", "identity") ∷ []
          else forward_headers server_api_key header)
        ≡ (if server_api_key == "" then none else some server_api_key)
  unfolding forward_headers forward_keys lookup
  sent_key true = ground arith
  sent_key false = lookup-forward_headers server_api_key header

  -- A request that the proxy sends upstream goes to the messages endpoint. Each of its messages came
  -- in at the same place; in one of a user, a content that is a text and the text of every block of
  -- type text have gone through the replacements of all patterns, in their order, and nothing else of
  -- the message differs, a tool's result included; a message of another role is as it came, and so is
  -- every other field of the body. The `x-api-key` is the key of the server where that has one, and missing where it has none, whatever
  -- the agent sent.
  pub proxy_messages-Passed :
      (body : Dict) (up : Upstream) (redactions : List Redaction) (k : String)
      → proxy_messages re patterns upstream_base server_api_key truthy header body
        ≡ some (up, redactions)
      → (messages : List Dict) × (cleaned : List Dict) × (messages_of
            (get_or "messages" (listing nil) body)
          ≡ some messages)
        × AllPassed re patterns messages cleaned
        × (up.url ≡ append upstream_base "/v1/messages")
        × (get k up.body
            ≡ (if "messages" == k then some (listing (mappings cleaned)) else get k body))
        × (lookup "x-api-key" up.headers
            ≡ (if server_api_key == "" then none else some server_api_key))
  unfolding proxy_messages
  proxy_messages-Passed body up redactions k done =
      let start = messages_of (get_or "messages" (listing nil) body) in
      elim (Option-cases start) [
        | inl raised ↦ absurd (ground arith)
        | inr (messages, read) ↦ elim (Option-cases (redact_messages re patterns messages)) [
          | inl raised ↦ absurd (ground arith)
          | inr ((cleaned, rs), last) ↦
              let stream = truthy (get_or "stream" (flag false) body) in
              let sent : Upstream = record {
                url = append upstream_base "/v1/messages";
                body = set "messages" (listing (mappings cleaned)) body;
                headers =
                    if stream
                    then forward_headers server_api_key header
                      ++ ("Accept-Encoding", "identity") ∷ []
                    else forward_headers server_api_key header;
              } in
              let same : sent ≡ up = ground (arith, read, last, done) in
              (
                messages,
                cleaned,
                read,
                redact_messages-Passed re patterns messages cleaned rs last,
                ap (λ u. u.url) (sym same),
                ap (λ u. get k u.body) (sym same)
                    ∙ get-set k "messages" (listing (mappings cleaned)) body,
                ap (λ u. lookup "x-api-key" u.headers) (sym same) ∙ sent_key stream,
              )
        ]
      ]
