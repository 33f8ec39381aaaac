-- ===== src/Lib.antt =====
-- A verification library for the Wavefront collector for Kubernetes.
--
-- The collector scrapes metrics from a cluster and sends them to Wavefront. Sources are scraped on
-- timers (plugins/sources); a flush combines what came in, passes it through processors
-- (plugins/processors) and hands it to the sink (plugins/manager, plugins/sinks/wavefront). The sink
-- adds tags, filters (internal/filter), cleans the tags and calls the client. Points and histograms
-- are those of internal/wf, metric sets and their tables those of internal/metrics. Leader election
-- (internal/leadership) pauses and resumes what only one node of the cluster may do; discovery
-- (internal/discovery, plugins/discovery) turns pods, services and nodes into endpoints, by rules or by
-- annotations, and adds and deletes providers for them while the collector runs; events of the cluster
-- are routed to the sink by a filter of their own (plugins/events). The deprecated flags become a
-- configuration (internal/flags, internal/options).
--
-- The files and what they model:
--   Prelude: lists, Boolean tests, Go's maps as association lists, errors, sort.Strings.
--   Float64: the operations of float64, as an interface.
--   Metrics: internal/metrics (types.go, set.go, batch.go, resource_key.go, metrics.go, labels.go).
--     Metrics/Catalog has the descriptors and the tables of metrics.go.
--   Filter: internal/filter; Filter/Matching and Filter/Config state what a filter accepts.
--   Wf: internal/wf; Wf/Distribution/Smooth is ToFrequency, Wf/Distribution/Rate is Rate.
--   Processors: helper.go and the sum-count, namespace, node and cluster aggregators (Aggregate,
--     SumCount), pod_aggregator.go (PodAggregator), distribution_rate_calculator.go and
--     cumulative_distribution_converter.go (Distributions), rate_calculator.go (Rates), the
--     enrichers of namespaces, pods and nodes with the label copier of internal/util (Enriching).
--   Sinks: plugins/sinks/wavefront, with cleanTags in TagCleaning and Export in Wavefront.
--   Flush: push and combineMetricSets of plugins/manager/manager.go.
--   Sources: the providers and the scraping of plugins/sources/manager.go, interval_timer.go;
--     plugins/sources/summary: the statistics of a kubelet as metric sets (Kubelet), and metric sets as
--     points (Summary); plugins/sources/prometheus: how a text is cut and scraped, the points of its
--     families, the provider and the instances behind a service (Prometheus); plugins/sources/kstate: the
--     points of the objects of a cluster (State); plugins/sources/controlplane (ControlPlane).
--   Options: internal/options and internal/flags: agent types, flag values, and the configuration that
--     the deprecated flags give (Settings, Adapter).
--   Leadership: internal/leadership, election.go and manager.go.
--   Discovery: internal/discovery and plugins/discovery. Resources and Configs have the resources and
--     the rules, Selection and Creation what a rule selects and which endpoints it gives, Discoverer the
--     state machine over the queue of resources, Listeners the callbacks of the informers, Endpoints the
--     handler that counts, Prometheus the encoder of sources, Runtime the rules that are read while the
--     collector runs, Access the check of access to secrets.
--   Events: plugins/events: filter.go (Selection) and eventrouter.go (Router).
--   Examples: each theorem at a concrete input.
--
-- How code is modelled. A function that changes an object takes it and returns the new one; where the
-- source changes a set through a pointer that the batch holds, the model writes the set back to the
-- batch. A Go map is an association list; a `range` over a map visits the keys in an order that is a
-- parameter, or in the order of the list, which stands for any order as the list is arbitrary. A nil
-- map and an empty one are the same list. An int64 is its 64 bits, a number below 2 ^ 64; a time is
-- the nanoseconds since the zero time. A function that holds a lock is one step; the messages to a
-- subscriber are handled in the order in which they are sent, though the code resumes in a goroutine
-- of its own. Logging is left out, and so are counters that only log output reads.
--
-- Where an object is shared and a property depends on it, the sharing is in the model: the map of tags
-- of the points of one set, and the maps of labels that labeled values of a set share, as a parameter that
-- says which do (Sources/Summary), the array behind the wired rules (Discovery/Runtime). The
-- set that the rate calculator caches may be changed by later processors: its theorems hold for any
-- cached set.
--
-- Every loop is structural recursion on the list that it ranges over, but the one that cuts the text of a
-- scrape: its fuel is the number of lines, which is enough as each round reads one (Prometheus/Reader/Chunks).
--
-- Parameters, for code that is not in the repository: the operations of float64 (Float64, of which no
-- law is assumed), glob.Compile, blake2b.Sum256, the Wavefront client, the
-- listers of pods, nodes and namespaces, the elector of client-go, the
-- processors of a flush and the factories of providers; for discovery, reflect.DeepEqual, of which is
-- assumed that it takes only equal endpoints for equal or that it takes a value for equal to itself,
-- strconv.ParseInt, the parsers of durations and truth values, YAML, the answers of the API server and
-- the readings of the clock, of which is assumed that they do not go back within one call; for the sources,
-- the parser of the Prometheus text format, fmt's %v and %d, the conversion of a uint64, the listers, net/url,
-- the regular expression for the host of a service, the API server's endpoints, and the HTTP client, the node's
-- name and the configuration of the cluster's client, which are read from files or the environment; for the
-- flags, net/url, os.ExpandEnv and the file of the discovery rules.
--
-- Not modelled: configuration files, HTTP clients, the provider and client of the kubelet, start-up, the start
-- and stop of the discovery manager and the informers, which are input and output or wiring; the sources of
-- Telegraf, cAdvisor, systemd and the internal statistics with the Telegraf encoder, which decode what other
-- programs write; the test proxy, which only the integration tests run.
pub mod Prelude
pub mod Float64
pub mod Metrics
pub mod Filter
pub mod Wf
pub mod Leadership
pub mod Processors
pub mod Sinks
pub mod Events
pub mod Discovery
pub mod Sources
pub mod Options
pub mod Flush
pub mod Examples
