-- ===== src/Api/Logs.antt =====
-- internal/api/logs.go: the log of an agent's pod as a stream of events.
use hackaway_repo.Base.{
  ℤ, pos, is_pos, String, Bool, false, Option, none, some, List, [], ◌∷◌, ◌==◌, concat, append,
  lookup, if◌then◌else◌,
}
use hackaway_repo.Kube.Objects.{Pod}
use hackaway_repo.Client.{
  agent, pod, Error, message, Result, panic, Client, M, pure, fail, ◌>>=◌, attempt, reads, lift,
  wrapping,
}
use hackaway_repo.Agent.Volume.{key}
use hackaway_repo.Api.Http.{Request, Writer, raw, write, set_header, http_error}

-- The log of a container of a pod, followed or not, with at most so many lines.
pub record PodLogs : Type 0 where
  pub stream : String → String → Bool → ℤ → Result (List String)

-- The server's Clientset, nil outside of a cluster; strconv.ParseInt; whether the writer is an
-- http.Flusher; err.Error().
pub record Streaming : Type 0 where
  pub clientset : Option PodLogs
  pub parse_int : String → Option ℤ
  pub is_flusher : Bool
  pub error_text : Error → String

-- The Clientset of a new server, from what its two calls of InClusterConfig and that of
-- NewForConfig give. None of their errors is handed on.
unfoldable pub new_clientset :
    {Config : Type 0} → Option Config → Option Config → (Config → Option PodLogs) → Option PodLogs
new_clientset (some config) again new_for_config = new_for_config config
new_clientset none (some config) new_for_config = new_for_config config
new_clientset none none new_for_config = none

unfoldable pub first_container_name : Pod → String
first_container_name p = elim p.spec.containers [ [] ↦ "" | x ∷ _ ↦ x.name ]

abbrev pod_and_container : Pod → String × String
unfolding first_container_name
pod_and_container p = (p.meta.name, first_container_name p)

-- 100, or what the query asks for if it is a positive number
unfoldable pub tail_lines : (String → Option ℤ) → Option String → ℤ
tail_lines parse_int none = pos 100
tail_lines parse_int (some asked) =
    if asked == ""
    then pos 100
    else elim (parse_int asked) [ none ↦ pos 100 | some v ↦ if is_pos v then v else pos 100 ]

-- A line of the stream after the other.
unfoldable pub stream_lines : List String → Writer → Writer
stream_lines [] w = w
stream_lines (line ∷ lines) w =
    stream_lines lines (write (raw (concat ("data: " ∷ line ∷ "\n\n" ∷ []))) w)

module _ (c : Client) (namespace : String) (s : Streaming) where
  open c use {State, get, list_pods}

  -- A call of a Clientset that is nil panics.
  unfoldable pub with_clientset : {A : Type 0} → (PodLogs → M State A) → M State A
  with_clientset use_it = elim s.clientset [ none ↦ lift panic | some logs ↦ use_it logs ]

  unfoldable pub pod_by_label : String → M State (String × String)
  unfolding with_clientset pod_and_container
  pod_by_label name = with_clientset (λ _. do
    pods ←
        wrapping (concat ("listing pods for agent \"" ∷ name ∷ "\"" ∷ []))
          (reads (list_pods namespace ("app", name)))
    elim pods [
      | [] ↦ fail (message (concat ("no pods found for agent \"" ∷ name ∷ "\"" ∷ [])))
      | p ∷ _ ↦ pure (pod_and_container p)
    ])

  unfoldable pub resolve_agent_pod : String → M State (String × String)
  unfolding with_clientset pod_by_label pod_and_container
  resolve_agent_pod name = do
    a ←
        wrapping (concat ("getting agent \"" ∷ name ∷ "\"" ∷ []))
          (reads (get agent (key name namespace)))
    if a.status.pod_name == ""
        then pod_by_label name
        else with_clientset (λ _.
          attempt (reads (get pod (key a.status.pod_name namespace)))
            (λ p. pure (pod_and_container p)) λ _. pod_by_label name)

  unfoldable pub open_stream : List String → Writer → Writer
  unfolding stream_lines
  open_stream lines w =
      let ready = set_header "Access-Control-Allow-Origin" "*" (
        set_header "Connection" "keep-alive" (
          set_header "Cache-Control" "no-cache"
            (set_header "Content-Type" "text/event-stream" w))) in
      if s.is_flusher
      then stream_lines lines ready
      else http_error "streaming not supported" 500 ready

  unfoldable pub handle_agent_logs : Request → Writer → String → M State Writer
  unfolding with_clientset resolve_agent_pod tail_lines open_stream
  handle_agent_logs r w name =
      if r.method == "GET"
      then attempt (resolve_agent_pod name)
          (λ found. with_clientset (λ logs.
            attempt
              (lift (
                logs.stream found.0 found.1
                  (elim (lookup "follow" r.query) [ none ↦ false | some f ↦ f == "true" ])
                  (tail_lines s.parse_int (lookup "tailLines" r.query))))
              (λ lines. pure (open_stream lines w))
              λ e. pure (http_error (append "opening log stream: " (s.error_text e)) 500 w)))
          (λ e. pure (http_error (append "resolving agent pod: " (s.error_text e)) 404 w))
      else pure (http_error "method not allowed" 405 w)
