-- ===== src/Lib.antt =====
-- Clawbernetes, a Kubernetes operator for fleets of AI agents: a model of its controllers, of the
-- harnesses that write an agent's configuration, of the fleet dashboard and of the API server.
--
-- The program. A user declares ClawAgent resources and the ClawPolicy, ClawChannel, ClawGateway,
-- ClawSkillSet and ClawObservability that they name (api/v1). For each agent the controller
-- (internal/controller/clawagent_controller.go) reads these, asks the harness of the agent
-- (internal/harness) for a configuration, and brings config maps, a claim for the workspace, a
-- deployment and a service in line; a claim that is too small is replaced by a larger one over
-- several reconciliations. It then writes a page on the fleet into a config map
-- (fleet_dashboard.go). Two smaller controllers bring up a gateway, which redacts what agents
-- send to a model, and Tempo and Grafana (clawgateway_controller.go,
-- clawobservability_controller.go). The API server (internal/api) reads and writes the resources
-- for a console, relays messages to agents and shows their logs. cmd/main.go starts the
-- controllers and the server. All state is in the cluster, behind the client of
-- controller-runtime, but for the hash of the last page.
--
-- The files.
--   Base and below: lists, texts, signed integers and string maps. Base/Text/Marks counts the
--     characters `<` of a text.
--   Kube, Kube/Equality, Kube/Build: the objects of k8s.io/api with the fields that are used,
--     DeepEqual, and the shapes that several parts build. Kube/Defaults says what the API server
--     fills in where a deployment says nothing. Kube/WellFormed says when the volumes, the
--     containers and the ports of a deployment and of its service fit together.
--   V1 and below: api/v1/claw*_types.go, a record for each spec, and its methods.
--   Client: the client as a record of operations, and the monad of a controller's methods, in which
--     an action takes the cluster to a result (ok, error or panic) and the cluster after it.
--     Client/Steps takes sequences of actions apart, Client/Frame and Client/Triple have a rule for
--     each way of composing actions, for what they leave alone and for what holds after a success.
--     Client/Laws says what the theorems assume of the client, Client/Memory is a cluster in memory,
--     and Client/Memory/Lawfulness proves the assumptions of it.
--   Harness/Contract, Harness/Registry: harness.go, config_input.go, registry.go.
--   Harness/OpenClaw and below: openclaw.go and observeclaw.go. BuildConfig is cut at its
--     comments: Providers (gateway, agents, diagnostics, providers, channels), Plugins, and for
--     buildObserveclawConfig Policy and Routing. Allowed and Limits hold the theorems.
--   Harness/Hermes: hermes.go.
--   Agent/Volume: activePVCName, buildPVC, buildMigrationPod, syncPVCOwnerRefs.
--   Agent/Resize: resizePVC. Its children prove what a step keeps (Safety), that steps lead to the
--     end (Progress), what the steps in between return (Returns), what the last one does
--     (Completion), what they leave alone (Frames) and that the claim in use is there (Backed).
--   Agent/Storage: ensurePVC and cleanupOrphanedPVC, with Keeps, Frames and Backed.
--   Agent/Config, Agent/Deployment, Agent/Secrets: the objects that are built. Config/Keys and
--     Config/Away tell their names apart; Deployment/WellFormed is on how they fit together, and
--     Deployment/Peers on the tokens of peers.
--   Agent/Ensure: ensureResource, with Laws and Frames (what it leaves alone).
--   Agent/References, Agent/Status, Agent/Reconcile: Reconcile up to the dashboard and
--     resolveAgentStatus. Below Reconcile, Reading is on what is read, Frames on what is left alone,
--     Ran takes a run apart, Desired, Workload and Provisioned say what it leaves in the cluster,
--     Mountable what the pods need of it, Claims what happens to claims.
--   Agent/Watch: the findAgents functions and SetupWithManager as a table of the kinds, with Laws,
--     Exact (whom a change reconciles) and Complete (whom it need not).
--   Ensure: the ensureResource that the two smaller controllers share, with Laws.
--   Gateway: clawgateway_controller.go. Gateway/Script and below hold the text of the server, and
--     Gateway/Server what its proxy does: Laws is on one text, Messages on the messages, Headers on
--     the headers, Proxy on the whole request that is sent upstream.
--   Observability: clawobservability_controller.go. Both have Laws and WellFormed;
--     Observability/Keeps is on what is left as it is.
--   Dashboard: fleet_dashboard.go (Card, Page, and the fixed parts Opening and Closing),
--     updateFleetDashboard (Update) and Reconcile of agents as a whole (Loop), with Steps, Laws
--     and Frames on the update, Escaping on the cards and Whole on Reconcile.
--   Api: internal/api. Types and Http (what is answered, and the writer of net/http), Crud, Chat,
--     Logs, Server, Activity, Paths and Routes, with Laws, Removal, Addresses, Feed and
--     Routing; Reachable goes from Reconcile of agents to the relay of a chat.
--   Manager: cmd/main.go over a record of the calls of the libraries, with Laws on the order of the
--     start.
--   Examples and below: the theorems at concrete inputs.
--
-- How the code is read. A pointer that may be nil is an Option; a nil map or slice and an empty
-- one are one value; where DeepEqual tells them apart, in the data of a config map, which is made
-- by the code and read back as nil when it is empty, the model says so. A stored deployment also
-- differs from the wanted one in defaults of fields that the model leaves out, so that the code
-- may update it where the model sees no drift; what is stored afterwards is the same. A loop over
-- a slice is recursion on a list. A method that changes its argument (ensurePVC sets the status
-- of the agent) returns the new value. Calls of the log are left out, and so are status
-- conditions and annotations, which the code does not read. Reconcile is one run, with no other
-- writer between its calls, and so is a request to the API server; the mutex of the dashboard is
-- left out. A deletion is done when the call returns: that Kubernetes keeps a claim until the
-- pods that use it are gone is not modelled, so that what is said of a deleted claim is said of
-- one that no pod uses. Create and Update answer with the object as the server has filled it.
-- ToUpper and ToLower change ASCII letters only, and %q puts a text between quotes. A float is
-- the text of its decimal form; quantities are compared by the client's Cmp alone. The order in
-- which a range visits a map, json.MarshalIndent, strconv.ParseFloat, SetControllerReference,
-- resource.MustParse, the digest of a page and the embedded JSON of a Grafana dashboard are
-- parameters; so are the regular expressions of Python, with an exception as a missing result,
-- and, for the API server, the decoding of JSON, the text of an error, the search in a line,
-- sort.Slice, the stream of a log and the call of a gateway. A panic of the client's calls is one
-- of its results; of net/http the header map, the status that is sent once, and http.Error are
-- written out. Paths of requests are taken to be clean. The only fuel is that of the decimal
-- digits of a number, one more than the number.
--
-- Not modelled: the classifier, the health check and the answers of the Python server of the
-- gateway, the listening of the API server, the console that it serves at /, a reader that leaves
-- a stream before its end, the queue of the library behind the watches, the logger and the
-- registration of types in cmd/main.go, and generated code.
pub mod Base
pub mod Kube
pub mod V1
pub mod Client
pub mod Harness
pub mod Ensure
pub mod Gateway
pub mod Agent
pub mod Observability
pub mod Dashboard
pub mod Api
pub mod Manager
pub mod Examples
