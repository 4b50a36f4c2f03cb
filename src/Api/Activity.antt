-- ===== src/Api/Activity.antt =====
-- internal/api/server.go, `handleActivity`: events found in the logs of the agents' pods.
use Prim.Native.String.{len, slice}
use hackaway_repo.Base.{
  ℤ, pos, ℕ, suc, zero, ◌+◌, compare, Ordering, String, Bool, false, ◌&&◌, Option, none, some, List,
  [], ◌∷◌, ◌++◌, length, if◌then◌else◌,
}
use hackaway_repo.V1.Agent.{ClawAgent}
use hackaway_repo.Client.{
  agent, Error, Result, ok, err, panic, Client, M, pure, ◌>>=◌, attempt, reads,
}
use hackaway_repo.Api.Logs.{PodLogs}
use hackaway_repo.Api.Types.{ActivityEvent}
use hackaway_repo.Api.Http.{Writer, events, write_json, http_error}

-- What a line of JSON says: the members that are read, where they are there with their type.
pub record LogEvent : Type 0 where
  pub ts : Option String
  pub event : Option String
  pub task_id : Option String
  pub duration_ms : Option ℤ
  pub state : Option String

-- strings.Contains, strings.Index, s[i:] and TrimSpace; json.Unmarshal of a line; the server's
-- Clientset, nil outside of a cluster; sort.Slice; s > t of texts; err.Error().
pub record Logs : Type 0 where
  pub has : String → String → Bool
  pub index : String → String → Option ℕ
  pub from : String → ℕ → String
  pub trim_space : String → String
  pub decode_event : String → Option LogEvent
  pub clientset : Option PodLogs
  pub sort_slice : (ActivityEvent → ActivityEvent → Bool) → List ActivityEvent → List ActivityEvent
  pub after : String → String → Bool
  pub error_text : Error → String

abbrev max_events : ℕ
max_events = 50

abbrev or_empty : Option String → String
or_empty none = ""
or_empty (some s) = s

abbrev or_zero : Option ℤ → ℤ
or_zero none = pos 0
or_zero (some n) = n

unfoldable pub a2a_event : String → LogEvent → ActivityEvent
a2a_event name e = record {
  timestamp = or_empty e.ts;
  agent = name;
  direction = "";
  type = "a2a";
  task_id = or_empty e.task_id;
  status = or_empty e.event;
  duration = or_zero e.duration_ms;
  message = or_empty e.state;
}

unfoldable pub plain_event : String → String → String → String → ActivityEvent
plain_event name ts type message = record {
  timestamp = ts;
  agent = name;
  direction = "";
  type = type;
  task_id = "";
  status = "";
  duration = pos 0;
  message = message;
}

-- The first 23 bytes of a line that is longer.
unfoldable pub line_timestamp : String → String
line_timestamp line = elim (compare 23 (len line)) [ Ordering.lt ↦ slice line 0 23 | _ ↦ "" ]

-- xs[:n] of a list that is longer, the list itself otherwise
unfoldable pub take : {A : Type 0} → ℕ → List A → List A
take zero xs = []
take (suc n) [] = []
take (suc n) (x ∷ xs) = x ∷ take n xs

module _ (c : Client) (logs : Logs) (namespace : String) where
  open c use {State, list, list_pods}
  open logs use {
    has, index, from, trim_space, decode_event, clientset, sort_slice, after, error_text,
  }

  -- The last lines of the container openclaw, none if there is an error; a panic is passed on.
  unfoldable pub get_pod_logs : String → ℤ → Result (List String)
  get_pod_logs pod_name lines = elim clientset [
    | none ↦ ok []
    | some found ↦ elim (found.stream pod_name "openclaw" false lines) [
      | ok read ↦ ok read
      | err _ ↦ ok []
      | panic ↦ panic
    ]
  ]

  -- The event of an alert. What follows the word is the message, unless the line begins with it.
  unfoldable pub alert_event : String → String → ActivityEvent
  unfolding line_timestamp plain_event
  alert_event name line =
      plain_event name (line_timestamp line) "alert" (elim (index line "alert:") [
        | none ↦ ""
        | some zero ↦ ""
        | some (suc n) ↦ trim_space (from line (suc n + 6))
      ])

  -- The events that a line without structure tells of.
  unfoldable pub text_events : String → String → List ActivityEvent
  unfolding line_timestamp alert_event plain_event
  text_events name line =
      (if has line "[observeclaw] alert:" then alert_event name line ∷ [] else [])
      ++ (if has line "embedded run agent end"
          then plain_event name (line_timestamp line) "llm-call" "Agent LLM call completed" ∷ []
          else [])

  -- A structured line that does not decode is passed over.
  unfoldable pub line_events : String → String → List ActivityEvent
  unfolding a2a_event text_events
  line_events name line =
      if has line "\"component\":\"a2a-gateway\"" && has line "\"event\""
      then elim (index line "{") [
        | none ↦ []
        | some start ↦ elim (decode_event (from line start)) [
          | none ↦ []
          | some e ↦ a2a_event name e ∷ text_events name line
        ]
      ]
      else text_events name line

  unfoldable pub lines_events : String → List String → List ActivityEvent
  unfolding line_events
  lines_events name [] = []
  lines_events name (line ∷ lines) = line_events name line ++ lines_events name lines

  -- The events of one agent, from the first of its pods.
  unfoldable pub agent_events : ClawAgent → M State (List ActivityEvent)
  unfolding get_pod_logs lines_events
  agent_events a =
      attempt (reads (list_pods namespace ("app", a.meta.name)))
        (λ pods. elim pods [
          | [] ↦ pure []
          | p ∷ _ ↦ reads (λ s. get_pod_logs p.meta.name (pos 50)) >>= λ lines.
              pure (lines_events a.meta.name lines)
        ])
        λ _. pure []

  -- Agents are read until there are enough events.
  unfoldable pub collect_events : List ActivityEvent → List ClawAgent → M State (List ActivityEvent)
  unfolding agent_events
  collect_events found [] = pure found
  collect_events found (a ∷ rest) = elim (compare (length found) max_events) [
    | Ordering.lt ↦ agent_events a >>= λ more. collect_events (found ++ more) rest
    | _ ↦ pure found
  ]

  abbrev newer : ActivityEvent → ActivityEvent → Bool
  newer x y = after x.timestamp y.timestamp

  unfoldable pub handle_activity : Writer → M State Writer
  unfolding collect_events take
  handle_activity w =
      attempt (reads (list agent namespace))
        (λ xs. collect_events [] xs >>= λ found.
          pure (write_json (events (take max_events (sort_slice newer found))) w))
        λ e. pure (http_error (error_text e) 500 w)
