-- ===== src/Lib.antt =====
-- A model of smtx-lab in Go: a Kubernetes operator that probes the network between nodes, reads the
-- datapath of each node through an agent, and recommends requests and limits from usage series.
--
-- The parts and their modules:
-- - Agent: internal/agent and cmd/agent/main.go. Collector collects a Snapshot for a SnapshotRequest
--   (collector.go); Cni detects the plugin (cni.go); Commands bounds and filters the output of the
--   commands (commands.go); Glob is path.Match, which the allowlist of chains uses.
-- - Analyzer: internal/analyzer. Iptables parses an iptables-save dump, traces a packet through its
--   chains and correlates them with observed traffic (network.go); Resource recommends requests and
--   limits for one profile (resource.go); Series builds the profiles from series and summarizes the
--   recommendations (resource_series.go).
-- - Metrics: internal/metrics/prometheus.go, range queries and the decoding of their answers.
-- - Probe: cmd/probe/main.go and internal/probe, the checks of one probe job.
-- - Exporter: internal/exporter. Excel makes the rows of the sheets (excel.go), Html the contents of
--   the two pages (html.go).
-- - Controller: internal/controller. Checks makes the checks to run; Jobs creates, replaces and reads
--   the probe jobs, and Jobs/Manifest builds them; Naming makes the names of objects; Snapshots makes
--   the request to the agents and what the status tells of a snapshot; Status is what the
--   reconciliation of a NetworkProbeLab makes of its finalizer and its status; NetworkRun is its run,
--   with the status that is written of it (networkprobelab_controller.go).
--   Monitoring applies the monitoring stack (monitoring_stack.go); ResourceLab is the reconciler of
--   ResourceAnalyzerLab with its analysis (resourceanalyzerlab_controller.go); Reports writes and
--   cleans up the ConfigMaps of both; Finalizers is finalizers.go. Client and Objects are what they
--   use of the API server.
-- - Api: the types of api/v1alpha1.
-- - Prelude, Strings and Crypto: lists, integers, maps and sorting, Go's package strings, and SHA-1.
-- - Examples: the theorems at concrete inputs.
--
-- The controller sends the agent a request (Controller.Snapshots), which the agent decodes onto its
-- defaults (Agent.Collector); the snapshot comes back and is analysed (Analyzer.Iptables). The probe
-- jobs that it creates run Probe, whose reports it turns into results (Controller.NetworkRun). The
-- other reconciler deploys Prometheus (Controller.Monitoring), asks it (Metrics), analyses the series
-- (Analyzer.Series) and writes the reports (Exporter, Controller.Reports).
--
-- The API server: Controller.Client has the calls of a kind of object, which take what is stored and
-- return it changed; Controller.Objects puts the kinds together in Stores. A chain of calls is a do
-- block that stops at the first error, with what is stored by then. What the theorems rely on of the
-- server is the record IsApiServer (Controller.Objects.Stored): a get answers what is stored under the
-- key; a create and an update store the object under its key, with defaults where the object leaves a
-- field of a Deployment or a Service empty, and change no other; a list answers the objects of the
-- namespace with the labels; a delete of a ConfigMap removes it, and a delete of a job removes it or
-- marks it as being deleted. Examples.Server is a server over lists that fills in defaults and only
-- marks jobs. No other client acts between the calls of one reconciliation.
--
-- How the code is modelled: a Go function is a function by clauses of the same name in snake case; a
-- struct is a record, and a method that changes its receiver returns the changed record. Strings are
-- lists of bytes and are taken to be ASCII where case or spaces matter. int32 and int64 are integers
-- whose arithmetic is wrapped by wrap32 and wrap64. Maps are association lists with distinct keys;
-- where the code ranges over a map it sorts what it collects. Sorting is a stable insertion sort,
-- while Go leaves the order of equal elements open. float64 is the interface Analyzer.Float, of which
-- nothing is assumed. Commands, files, the API server, the network, the clock, JSON and gzip are
-- parameters.
-- A nil slice and an empty one are the same list.
--
-- Fuel: digits_on has 11 calls for the digits of an int32 and decimal_on 20 for those of an int64,
-- more than such numbers have; percentile_name_on has 3, since the fallback of a name is "p99" or
-- "p95" and its own fallback "p95".
--
-- The loops of the probe command run on the number of exchanges that are left.
--
-- Not modelled: the HTML templates with passRate and ratioWidth, the writing of spreadsheets, the
-- reading of flags and of the environment, the manager with its registrations and the copies of
-- deepcopy.go, which are input, output and plumbing; and meta.SetStatusCondition and
-- reflect.DeepEqual, which are parameters.
pub mod Prelude
pub mod Strings
pub mod Crypto
pub mod Api
pub mod Agent
pub mod Analyzer
pub mod Metrics
pub mod Probe
pub mod Exporter
pub mod Controller
pub mod Examples
