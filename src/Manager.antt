-- ===== src/Manager.antt =====
-- cmd/main.go: the flags, the options of the servers of the manager, and the order of the start. The
-- library's calls are the fields of a record.
pub mod Laws
use hackaway_repo.Base.{
  pos, ℕ, ℤ, String, Bool, true, false, List, [], ◌∷◌, ◌==◌, not, if◌then◌else◌,
}
use hackaway_repo.Client.{Error, Result, ok, err, panic, M, pure, ◌>>=◌, ◌>>◌}

-- The flags of the program's own; those of the logger are left out.
pub record Flags : Type 0 where
  pub metrics_addr : String
  pub metrics_cert_path : String
  pub metrics_cert_name : String
  pub metrics_cert_key : String
  pub webhook_cert_path : String
  pub webhook_cert_name : String
  pub webhook_cert_key : String
  pub enable_leader_election : Bool
  pub probe_addr : String
  pub secure_metrics : Bool
  pub enable_http2 : Bool

-- The flags where the command line gives none.
abbrev pub default_flags : Flags
default_flags = record {
  metrics_addr = "0";
  metrics_cert_path = "";
  metrics_cert_name = "tls.crt";
  metrics_cert_key = "tls.key";
  webhook_cert_path = "";
  webhook_cert_name = "tls.crt";
  webhook_cert_key = "tls.key";
  enable_leader_election = false;
  probe_addr = ":8081";
  secure_metrics = true;
  enable_http2 = false;
}

-- What the code sets of tls.Config.
pub record TlsConfig : Type 0 where
  pub next_protos : List String

abbrev pub disable_http2 : TlsConfig → TlsConfig
disable_http2 c = record c { next_protos = "http/1.1" ∷ [] }

unfoldable pub tls_opts : Flags → List (TlsConfig → TlsConfig)
tls_opts f = if not f.enable_http2 then disable_http2 ∷ [] else []

-- CertDir, CertName and KeyName, empty where they are not set.
pub record Certificate : Type 0 where
  pub cert_dir : String
  pub cert_name : String
  pub key_name : String

unfoldable pub certificate : String → String → String → Certificate
certificate path name key =
    if path == ""
    then record { cert_dir = ""; cert_name = ""; key_name = "" }
    else record { cert_dir = path; cert_name = name; key_name = key }

pub record WebhookOptions : Type 0 where
  pub tls : List (TlsConfig → TlsConfig)
  pub cert : Certificate

unfoldable pub webhook_server_options : Flags → WebhookOptions
webhook_server_options f = record {
  tls = tls_opts f;
  cert = certificate f.webhook_cert_path f.webhook_cert_name f.webhook_cert_key;
}

-- `filter_provider`: filters.WithAuthenticationAndAuthorization is set.
pub record MetricsOptions : Type 0 where
  pub bind_address : String
  pub secure_serving : Bool
  pub tls : List (TlsConfig → TlsConfig)
  pub filter_provider : Bool
  pub cert : Certificate

unfoldable pub metrics_server_options : Flags → MetricsOptions
metrics_server_options f = record {
  bind_address = f.metrics_addr;
  secure_serving = f.secure_metrics;
  tls = tls_opts f;
  filter_provider = if f.secure_metrics then true else false;
  cert = certificate f.metrics_cert_path f.metrics_cert_name f.metrics_cert_key;
}

pub record ManagerOptions : Type 0 where
  pub metrics : MetricsOptions
  pub webhook_server : WebhookOptions
  pub health_probe_bind_address : String
  pub leader_election : Bool
  pub leader_election_id : String

unfoldable pub manager_options : Flags → ManagerOptions
manager_options f = record {
  metrics = metrics_server_options f;
  webhook_server = webhook_server_options f;
  health_probe_bind_address = f.probe_addr;
  leader_election = f.enable_leader_election;
  leader_election_id = "e744964a.clawbernetes.io";
}

-- The server of internal/api, as the program makes it.
pub record ApiServer : Type 0 where
  pub namespace : String
  pub port : ℤ
  pub has_clientset : Bool

pub data Reconciler : Type 0 where
  claw_observability claw_agent claw_gateway : Reconciler

-- The calls of the libraries: ctrl.GetConfigOrDie with ctrl.NewManager, SetupWithManager, the two
-- checks, kubernetes.NewForConfig (whether it succeeds), the goroutine of apiServer.Start, and
-- mgr.Start.
pub record Runtime : Type 1 where
  pub State : Type 0
  pub new_manager : ManagerOptions → M State (Unit {0})
  pub set_up : Reconciler → M State (Unit {0})
  pub add_healthz_check : M State (Unit {0})
  pub add_readyz_check : M State (Unit {0})
  pub has_config : State → Bool
  pub launch : ApiServer → State → State
  pub start : M State (Unit {0})

-- os.Exit(1) for an error, and what Go exits with for a panic.
abbrev pub exit_code : Result (Unit {0}) → ℕ
exit_code (ok _) = 0
exit_code (err e) = 1
exit_code panic = 2

module _ (rt : Runtime) where
  open rt use {
    State, new_manager, set_up, add_healthz_check, add_readyz_check, has_config, launch, start,
  }

  -- The goroutine is started, and its error is logged alone.
  unfoldable pub start_api : M State (Unit {0})
  start_api s =
      let server : ApiServer = record {
        namespace = "clawbernetes";
        port = pos 9090;
        has_clientset = has_config s;
      } in
      (ok tt, launch server s)

  unfoldable pub run : Flags → M State (Unit {0})
  unfolding start_api
  run f = do
    new_manager (manager_options f)
    set_up claw_observability
    set_up claw_agent
    set_up claw_gateway
    add_healthz_check
    add_readyz_check
    start_api
    start

  unfoldable pub main : Flags → State → ℕ × State
  unfolding run
  main f s = let (r, t) = run f s in (exit_code r, t)
