-- ===== src/Examples/Relaying.antt =====
-- The theorems on the API server's routes, addresses and feed of events.
use hackaway_repo.Base.{
  pos, ◌≡◌, refl, arith, ◌≤◌, true, false, none, some, List, [], ◌∷◌, length, ◌==◌,
}
use hackaway_repo.Kube.Build.{object_meta, text_config_map, plain_service}
use hackaway_repo.Client.{
  Kind, config_map, deployment, service, pvc, pod, agent, channel, gateway, policy, skill_set,
  observability, Object, ok,
}
use hackaway_repo.Client.Memory.{memory, holding}
use hackaway_repo.Agent.Volume.{key}
use hackaway_repo.Agent.References.{gateway_url_of}
use hackaway_repo.Gateway.Objects.{gateway_service}
use hackaway_repo.Gateway.Reconcile.{port_of}
use hackaway_repo.Api.Types.{ActivityEvent}
use hackaway_repo.Api.Paths.{is_segment}
use hackaway_repo.Api.Http.{Request, Writer, empty_writer, events, write_json}
use hackaway_repo.Api.Chat.{Relay, find_service_port, cluster_url, resolve_gateway_from_cr}
use hackaway_repo.Api.Logs.{Streaming}
use hackaway_repo.Api.Activity.{Logs, plain_event, handle_activity}
use hackaway_repo.Api.Routes.{Environment, handle_single, handle_request}
use hackaway_repo.Api.Routing.{handle_request-single}
use hackaway_repo.Api.Addresses.{resolve_gateway_from_cr-gateway_service}
use hackaway_repo.Api.Feed.{all_from, names_of, handle_activity-all_from}
use hackaway_repo.Examples.Serving.{codec, error_text}
use hackaway_repo.Examples.Data.{
  empty, at, slack, bot, watched, claim_named, copier, stopped_bot, guarded, monitored,
}

abbrev relay : Relay
relay = record {
  decode_chat = λ body. ok (record { role = "user"; content = body });
  marshal_chat = λ model requests. ok model;
  new_request = λ url. ok tt;
  post = λ url body. ok (200, body);
  error_text = error_text;
}

abbrev streaming : Streaming
streaming = record {
  clientset = none;
  parse_int = λ s. none;
  is_flusher = true;
  error_text = error_text;
}

-- Every line tells of a call of a model.
abbrev logs : Logs
logs = record {
  has = λ line part. part == "embedded run agent end";
  index = λ line part. none;
  from = λ line n. line;
  trim_space = λ line. line;
  decode_event = λ line. none;
  clientset =
      some
        (record { stream = λ name container follow n. ok ("2026-01-01T00:00:00.000 said" ∷ []) });
  sort_slice = λ before xs. xs;
  after = λ s t. false;
  error_text = error_text;
}

abbrev new_obj : (k : Kind) → Object k
new_obj config_map = text_config_map "" "" [] []
new_obj deployment = stopped_bot
new_obj service = plain_service "" "" [] []
new_obj pvc = claim_named "" ""
new_obj pod = copier
new_obj agent = bot ""
new_obj channel = slack
new_obj gateway = guarded
new_obj policy = record {
  meta = object_meta "" "" [];
  spec = record {
    tool_policy = record { allow = []; deny = [] };
    budget = record {
      daily = pos 0;
      monthly = pos 0;
      warn_at = "";
      downgrade_model = "";
      downgrade_provider = "";
    };
  };
}
new_obj skill_set = record { meta = object_meta "" "" []; spec = record { skills = [] } }
new_obj observability = monitored

abbrev environment : Environment
environment = record {
  codec = codec;
  relay = relay;
  streaming = streaming;
  logs = logs;
  new_obj = new_obj;
}

abbrev asks_for_bot : Request
asks_for_bot = record { method = "GET"; path = "/api/agents/bot"; body = none; query = [] }

bot_segment : is_segment "bot" ≡ true
unfolding is_segment
bot_segment = refl

handle_request-single_example :
    handle_request memory environment "ns" asks_for_bot empty_writer
    ≡ handle_single memory environment "ns" agent asks_for_bot "bot" empty_writer
handle_request-single_example =
    handle_request-single memory environment "ns" asks_for_bot "bot" empty_writer refl bot_segment
      (λ same. cc)

abbrev with_gateway : memory.State
with_gateway = holding (record empty { gateways = at "front" guarded })

gateway_there : memory.get gateway (key "front" "ns") with_gateway ≡ ok guarded
unfolding memory holding
gateway_there = refl

resolve_gateway_from_cr-gateway_service_example :
    let svc = gateway_service "ns" "front" (port_of guarded) in
    ((resolve_gateway_from_cr memory "ns" "front" with_gateway).0
      ≡ ok (gateway_url_of (some guarded) "front" "ns"))
    × (gateway_url_of (some guarded) "front" "ns"
        ≡ cluster_url svc.meta.name svc.meta.namespace (find_service_port "http" svc.spec.ports))
resolve_gateway_from_cr-gateway_service_example =
    resolve_gateway_from_cr-gateway_service memory "ns" with_gateway "front" guarded 9000
      gateway_there refl (omega arith)

abbrev logged : memory.State
logged = holding (record watched { pod_list = copier ∷ [] })

abbrev shown : Writer
shown =
    write_json
      (events
        (plain_event "bot" "2026-01-01T00:00:00.000" "llm-call" "Agent LLM call completed" ∷ []))
      empty_writer

agents_listed : memory.list agent "ns" logged ≡ ok (bot "persistent" ∷ [])
unfolding memory holding
agents_listed = refl

feed_shown : (handle_activity memory logs "ns" empty_writer logged).0 ≡ ok shown
unfolding memory holding handle_activity
feed_shown = refl

handle_activity-all_from_example :
    (es : List ActivityEvent) × (shown ≡ write_json (events es) empty_writer)
    × (length es ≤ 50)
    × (all_from (names_of (bot "persistent" ∷ [])) es ≡ true)
handle_activity-all_from_example =
    handle_activity-all_from memory logs "ns" empty_writer shown logged (bot "persistent" ∷ [])
      (λ f xs e m. m) agents_listed feed_shown
