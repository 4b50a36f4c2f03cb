-- ===== src/Gateway/Server.antt =====
-- internal/controller/clawgateway_controller.go: the redaction of the Python server that the text of
-- `gatewayServerScript` holds. `re` is a parameter; an exception is `none`.
pub mod Laws
pub mod Messages
pub mod Headers
pub mod Proxy
use hackaway_repo.Base.{
  String, Bool, true, false, Option, none, some, List, [], ◌∷◌, ◌++◌, map, ◌==◌, nonempty, not,
  if◌then◌else◌, append, lookup, ℕ, length,
}

-- A value of `request.json()`. A number is its text.
mutual
  pub data Value : Type 0 where
    null : Value
    flag : Bool → Value
    number : String → Value
    text : String → Value
    listing : Values → Value
    mapping : Dict → Value

  pub data Values : Type 0 where
    nil : Values
    cons : Value → Values → Values

  pub data Dict : Type 0 where
    blank : Dict
    entry : String → Value → Dict → Dict

-- d.get(k)
unfoldable pub get : String → Dict → Option Value
get k blank = none
get k (entry j v d) = let rest = get k d in if j == k then some v else rest

-- {**d, k: v}
unfoldable pub set : String → Value → Dict → Dict
set k v blank = entry k v blank
set k v (entry j w d) = let rest = set k v d in if j == k then entry j v d else entry j w rest

-- d.get(k, default)
abbrev pub get_or : String → Value → Dict → Value
get_or k v d = elim (get k d) [ none ↦ v | some w ↦ w ]

-- v == s, for a text s
abbrev pub is_text : String → Value → Bool
is_text s (text t) = t == s
is_text s null = false
is_text s (flag b) = false
is_text s (number n) = false
is_text s (listing vs) = false
is_text s (mapping d) = false

-- The module `re`: compile, pattern.pattern, [m.group() for m in pattern.finditer(s)], and
-- pattern.sub(replacement, s), which raises on a bad template.
pub record Regex : Type 1 where
  pub Pattern : Type 0
  pub compile : String → Option Pattern
  pub source : Pattern → String
  pub finditer : Pattern → String → List String
  pub sub : Pattern → String → String → Option String

pub record PatternEntry : Type 0 where
  pub pattern : String
  pub replacement : String

-- What is printed of a match.
pub record Redaction : Type 0 where
  pub original : String
  pub replacement : String
  pub pattern : String

module _ {A B : Type 0} where
  infixl 5 ◌>>=◌
  abbrev pub ◌>>=◌ : Option A → (A → Option B) → Option B
  none >>= f = none
  some a >>= f = f a

module _ (re : Regex) where
  open re use {Pattern, compile, source, finditer, sub}

  -- A bad pattern is printed and left out.
  unfoldable pub compile_patterns : List PatternEntry → List (Pattern × String)
  compile_patterns [] = []
  compile_patterns (e ∷ es) = elim (compile e.pattern) [
    | none ↦ compile_patterns es
    | some p ↦ (p, e.replacement) ∷ compile_patterns es
  ]

  -- POST /config/patterns: the patterns from then on, and the number that is answered.
  unfoldable pub update_patterns : List PatternEntry → List (Pattern × String) × ℕ
  unfolding compile_patterns
  update_patterns entries = let compiled = compile_patterns entries in (compiled, length compiled)

  abbrev pub matches : Pattern → String → String → List Redaction
  matches p r s =
      map (λ m. record { original = m; replacement = r; pattern = source p }) (finditer p s)

  unfoldable pub redact : List (Pattern × String) → String → Option (String × List Redaction)
  redact [] s = some (s, [])
  redact ((p, r) ∷ patterns) s = do
    replaced ← sub p r s
    (last, redactions) ← redact patterns replaced
    some (last, matches p r s ++ redactions)

  -- `redact` of a value that may be no text: `finditer` raises on it.
  unfoldable pub redact_value : List (Pattern × String) → Value → Option (Value × List Redaction)
  unfolding redact
  redact_value patterns (text s) = do (t, redactions) ← redact patterns s; some (text t, redactions)
  redact_value patterns null = if nonempty patterns then none else some (null, [])
  redact_value patterns (flag b) = if nonempty patterns then none else some (flag b, [])
  redact_value patterns (number n) = if nonempty patterns then none else some (number n, [])
  redact_value patterns (listing vs) = if nonempty patterns then none else some (listing vs, [])
  redact_value patterns (mapping d) = if nonempty patterns then none else some (mapping d, [])

  redact_text_block : List (Pattern × String) → Dict → Option (Value × List Redaction)
  unfolding redact_value
  redact_text_block patterns d = do
    (v, redactions) ← redact_value patterns (get_or "text" (text "") d)
    some (mapping (set "text" v d), redactions)

  -- A block of type text; every other value is kept.
  unfoldable pub redact_block : List (Pattern × String) → Value → Option (Value × List Redaction)
  unfolding redact_text_block
  redact_block patterns (mapping d) =
      if is_text "text" (get_or "type" null d)
      then redact_text_block patterns d
      else some (mapping d, [])
  redact_block patterns (text s) = some (text s, [])
  redact_block patterns null = some (null, [])
  redact_block patterns (flag b) = some (flag b, [])
  redact_block patterns (number n) = some (number n, [])
  redact_block patterns (listing vs) = some (listing vs, [])

  unfoldable pub redact_blocks : List (Pattern × String) → Values → Option (Values × List Redaction)
  unfolding redact_block
  redact_blocks patterns nil = some (nil, [])
  redact_blocks patterns (cons v vs) = do
    (w, first) ← redact_block patterns v
    (ws, rest) ← redact_blocks patterns vs
    some (cons w ws, first ++ rest)

  -- The content of a message of a user: a text, a list of blocks, or anything else.
  unfoldable pub redact_content :
      List (Pattern × String) → Dict → Value → Option (Dict × List Redaction)
  unfolding redact redact_blocks
  redact_content patterns msg (text s) = do
    (t, redactions) ← redact patterns s
    some (set "content" (text t) msg, redactions)
  redact_content patterns msg (listing blocks) = do
    (new_blocks, redactions) ← redact_blocks patterns blocks
    some (set "content" (listing new_blocks) msg, redactions)
  redact_content patterns msg null = some (msg, [])
  redact_content patterns msg (flag b) = some (msg, [])
  redact_content patterns msg (number n) = some (msg, [])
  redact_content patterns msg (mapping d) = some (msg, [])

  unfoldable pub redact_message : List (Pattern × String) → Dict → Option (Dict × List Redaction)
  unfolding redact_content
  redact_message patterns msg =
      if is_text "user" (get_or "role" null msg)
      then redact_content patterns msg (get_or "content" (text "") msg)
      else some (msg, [])

  unfoldable pub redact_messages :
      List (Pattern × String) → List Dict → Option (List Dict × List Redaction)
  unfolding redact_message
  redact_messages patterns [] = some ([], [])
  redact_messages patterns (msg ∷ messages) = do
    (cleaned, first) ← redact_message patterns msg
    (rest, redactions) ← redact_messages patterns messages
    some (cleaned ∷ rest, first ++ redactions)

-- The iteration over `body.get("messages", [])`, whose members must be dictionaries.
unfoldable pub dictionaries : Values → Option (List Dict)
dictionaries nil = some []
dictionaries (cons (mapping d) vs) = do ds ← dictionaries vs; some (d ∷ ds)
dictionaries (cons null vs) = none
dictionaries (cons (flag b) vs) = none
dictionaries (cons (number n) vs) = none
dictionaries (cons (text s) vs) = none
dictionaries (cons (listing ws) vs) = none

-- An empty text and an empty dictionary are iterated over without an error.
unfoldable pub messages_of : Value → Option (List Dict)
unfolding dictionaries
messages_of (listing vs) = dictionaries vs
messages_of (text s) = if s == "" then some [] else none
messages_of (mapping blank) = some []
messages_of (mapping (entry k v d)) = none
messages_of null = none
messages_of (flag b) = none
messages_of (number n) = none

abbrev pub mappings : List Dict → Values
mappings [] = nil
mappings (d ∷ ds) = cons (mapping d) (mappings ds)

-- The headers of the request that are sent on.
unfoldable pub forward_keys : List String → (String → String) → List (String × String)
forward_keys [] header = []
forward_keys (k ∷ ks) header =
    let rest = forward_keys ks header in if header k == "" then rest else (k, header k) ∷ rest

-- `header` answers with the empty text for a header that is not there.
unfoldable pub forward_headers : String → (String → String) → List (String × String)
unfolding forward_keys
forward_headers server_api_key header =
    (("Content-Type", "application/json") ∷ [])
    ++ ((if server_api_key == "" then [] else ("x-api-key", server_api_key) ∷ [])
        ++ forward_keys ("anthropic-version" ∷ "authorization" ∷ "anthropic-beta" ∷ []) header)

-- The request that is sent upstream.
pub record Upstream : Type 0 where
  pub url : String
  pub body : Dict
  pub headers : List (String × String)

-- `is_stream` is the truth of `body.get("stream", False)`.
unfoldable pub proxy_messages :
    (re : Regex)
    → List (re.Pattern × String)
    → String
    → String
    → (Value → Bool)
    → (String → String)
    → Dict
    → Option (Upstream × List Redaction)
unfolding messages_of
proxy_messages re patterns upstream_base server_api_key truthy header body = do
  messages ← messages_of (get_or "messages" (listing nil) body)
  (cleaned, redactions) ← redact_messages re patterns messages
  let headers = forward_headers server_api_key header
  some (
    record {
      url = append upstream_base "/v1/messages";
      body = set "messages" (listing (mappings cleaned)) body;
      headers =
          if truthy (get_or "stream" (flag false) body)
          then headers ++ ("Accept-Encoding", "identity") ∷ []
          else headers;
    },
    redactions,
  )
