-- ===== src/Lib.antt =====
-- Verification of the Komodor security reporter, a controller that scans the images of Kubernetes
-- workloads for vulnerabilities and publishes what it finds.
--
-- The parts and their files:
--
-- * Reconciler/Circuit, Reconciler/Errors, Reconciler/Backoff and Reconciler/Resilience model
--   internal/reconciler/scanner_runtime.go. The breaker is a map from scanner names to circuits;
--   allow, on_success, on_failure and circuit_state are its methods, each atomic, as they hold its
--   mutex. run_attempts is the loop of executeScannerWithResilience; its fuel is the number of
--   attempts that are left, so it is the loop's own bound. Two other runs meet only at the breaker
--   and its metric: what they do while a scan runs is the function `others` of the environment.
-- * Reconciler/Handle models handleScanResultStateAndPublish of internal/reconciler/reconcile.go over
--   a record of backend operations (State/Backend, internal/state/backend.go). Metrics and events are
--   a list of effects.
-- * Reconciler/Images and Reconciler/Workload model the rest of internal/reconciler/reconcile.go and
--   internal/controller/image_extractor.go, with the goroutines of a run one after the other.
--   Reconciler/Pool has the goroutines of reconcileWorkload as a step relation, and
--   Reconciler/Namespaces those of ReconcileAll.
-- * Registry models internal/registry: parse and resolve.
-- * Scanners models severities, results and CreateScannerRegistry of internal/scanners, and the
--   scanners: Trivy, Snyk, Wiz and Clair each have a file for internal/scanners/<name>/scanner.go, and
--   TrivyOperator with TrivyOperator/Reports is internal/scanners/trivyoperator. What they share is in
--   Summary, Collected, Dedupe and Payload, which walks over payloads of unknown shape. Settings has
--   their settings, factories and registration.
-- * State/Entry with Entry/Codec models internal/state/entry.go and its formats. State/Store is the
--   wrapper of a cache that each backend has; State/ConfigMap, State/Redis and State/Memcache are the
--   stores of internal/state/backends, State/Remote the clients of the last two, State/Memory is the
--   store in memory, and State/Factory is internal/state/backends/factory.go.
-- * Startup models the start in cmd/komodor-security-reporter/main.go up to the components.
-- * Policy models internal/policy: fingerprints and EvaluatePublish.
-- * Komodor models internal/komodor: the threshold, the event, the ranking and the HTTP client.
-- * Limiter models internal/concurrency: the counts of results and the rate, and calls that
--   interleave.
-- * Metrics models the registration of internal/metrics/metrics.go.
-- * Command models the runs and the limited output of internal/scanners/command/runner.go.
-- * Config models the validation, the defaults and the publishing modes of internal/config/config.go,
--   and Config/Loader the loading of internal/config/loader.go, over a record of viper's operations.
-- * Prelude has what they share: texts as lists of bytes, signed integers, maps, sorting, decimals.
--
-- The runtime settings go from Config through newScannerRuntimePolicy to the breaker and the retries;
-- a workload's images go through Registry to the executions, whose results go to the handler, which
-- asks Policy and Komodor and writes to the backend. The handler knows of a backend only that it is
-- reliable, which State shows of the stores. Clear of Redis has as fuel the number of its SCAN calls;
-- the rank of the first cursor bounds it.
--
-- Conventions: Go's int and Duration are unbounded integers where the sign matters, counters that
-- only grow from 0 are natural numbers, and instants are nanoseconds. Overflow of 64 bits is not
-- modelled. Letter case and blanks are those of ASCII, but for the upper case of Clair's links, which
-- is a parameter. Maps are association lists; the order in which the loop over the scanners finds them
-- is a parameter, for each image its own, and a decoded JSON object has its own order. The registry
-- client, the registry of the metrics, SHA-256, base64, JSON, URLs, HTTP, the Kubernetes
-- API, the caches and their servers, floating-point arithmetic and, for the executions, the
-- scanners are parameters, of which a theorem assumes only what it states. Log lines are left out.
--
-- Not modelled, since they are calls of libraries: the token bucket under the limiter, the runs of
-- the scanners' programs, the clients of Kubernetes and of the caches, the decoding of the
-- configuration by viper, flags and the manager of the controllers. In the step relations a scan's
-- execution with what its handler does is one step, as is a workload of a namespace: that step takes
-- the number of scans that reconcileWorkload leaves running, and no theorem on ReconcileAll is about
-- their end.
pub mod Prelude
pub mod Registry
pub mod Scanners
pub mod Policy
pub mod Komodor
pub mod Config
pub mod State
pub mod Limiter
pub mod Command
pub mod Reconciler
pub mod Startup
pub mod Metrics
