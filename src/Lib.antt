-- ===== src/Lib.antt =====
-- A model of the decision logic of openstudio-server-operator, a kopf operator that watches an
-- OpenStudio Server on Kubernetes, with the theorems that make it correct.
--
-- The operator runs one timer handler per module. Each timer tick is a function of the custom
-- resource's `.status` (its only durable memory), of a few caches in the process, of the time,
-- and of what the REST server, the Kubernetes API and Redis answer. A tick makes calls, each of
-- which succeeds or raises; a raise ends the tick, and the next tick starts from what was done.
--
-- World.antt models that setting: `Env` gives the services' answers and refusals as arbitrary
-- functions of the trace of all calls so far, `World` holds the status, the caches and the
-- trace, and `M` is the state-and-exception monad of a tick. World/Triple.antt has the rules by
-- which an action is executed symbolically (`After P E`: `P` where it returns, `E` where it
-- raises), World/Grows.antt what is known of the calls that an action adds to the trace.
--
-- The parts:
--   * Base.antt: names of the library, Boolean tests, lists and Python dicts.
--   * Clock.antt, Config.antt: times in microseconds; the policies of
--     src/openstudio_operator/config.py with their defaults; Config/Spec.antt is `from_spec`.
--   * Status.antt, Store.antt and its children: src/openstudio_operator/status_store.py. One write
--     is the whole read-modify-write cycle of `_mutate`: a fresh read, then a patch that is
--     applied or raises. Store/Cap.antt is the cap of `STATUS_MAP_MAX_ENTRIES` entries with its
--     eviction order.
--   * Emitter.antt: `EventEmitter.emit` of src/openstudio_operator/events.py.
--   * Watchdog.antt and its children: `run_watchdog_tick` and `_run_anchor_hygiene` of
--     src/openstudio_operator/handlers/datapoint_watchdog.py.
--   * Recycler.antt and its children: `run_recycler_tick` of
--     src/openstudio_operator/handlers/worker_recycler.py.
--   * Sla.antt and its children: `run_sla_tick`, `_grace_and_escalate` and `_escalate_analysis` of
--     src/openstudio_operator/handlers/analysis_sla.py.
--   * Resque.antt: `workers_for_analysis`, `pod_name_for_worker`, `queue_depths`, `worker_heartbeats`
--     and `stale_workers` of src/openstudio_operator/redis_client.py, over the parsed values.
--   * Kube.antt: `deployment_label_selector` of src/openstudio_operator/_k8s.py.
--   * WebBackground.antt and its children: `run_stall_tick`, `_stall_condition_holds` and
--     `StallWindowTracker` of src/openstudio_operator/handlers/web_background_monitor.py.
--   * Retention.antt and its children: `run_retention_tick` of src/openstudio_operator/retention.py,
--     the tick of a CronJob, with the Event sink of src/openstudio_operator/prune_entrypoint.py.
--     Retention/JobName.antt is `archival_job_name` of src/openstudio_operator/archival.py; the tick
--     is modelled for any function of names. Lower-casing and the digest are parameters.
--   * DryRun.antt, Retention/Audit.antt: `spec.dryRun` over the timer handlers and the pipeline.
--   * RestClient.antt and its children: `_request` of src/openstudio_operator/openstudio_client.py, one
--     request with its retries and its backoff.
--   * Singleton.antt and its children: the election of the one custom resource that is served, the
--     gate that the handlers run behind, and `enforce`, of src/openstudio_operator/singleton.py.
--     Singleton/Watch.antt and its children: `_check` and `singleton_guard_event`, with the cache of
--     fingerprints; Singleton/RedisEvents.antt the one-time Events about the Redis settings.
--   * CrCache.antt: the per-CR caches of src/openstudio_operator/_cr_cache.py.
--   * Wire.antt and its children: the JSON form of the four status records of
--     src/openstudio_operator/status_store.py, and what a merge patch makes of it.
--   * Mutate.antt: `_mutate` of src/openstudio_operator/status_store.py, with its retries.
--   * Tests.antt: runs at concrete inputs and the theorems applied to them.
--
-- How they meet: the ticks of Watchdog, Recycler, Sla and WebBackground run behind the gate of
-- Singleton, each on the caches that CrCache keeps for the custom resource (World holds those of one
-- custom resource). They and Retention read and write the status through Store, whose writes are
-- Mutate over the wire form of Wire, and make the server's calls through RestClient. A call of World
-- is a whole `_request`, and a write of Store a whole `_mutate`: what those do inside is modelled in
-- their own modules.
--
-- Choices of the model. A nested branch of a handler is a definition by clauses on the value that
-- is tested. Loops over documents and over map entries are structural recursion, so no fuel is
-- needed; the loops of `_request` and `_mutate` recur on the attempts that are left. Integers of the
-- spec are natural numbers, as deploy/crd.yaml gives each a minimum of 0 or 1. A Python set is a
-- list, walked in the list's order. In Store the stored values are well-formed, and a write of an entry
-- merges into the record that is stored, as the merge patch does (Status/Merge.antt). A refusal is an
-- exception of the class that its service's client raises (`ApiException`, `RedisClientError`,
-- `OpenStudioApiError`): transport errors of other classes are not modelled, so that the handlers of
-- `evict_one`, `post` and `sense` catch every refusal that they meet. Metrics, logging and the prose
-- of Events are left out; an Event keeps its type, its reason and the object that it names.
--
-- Not modelled: the kopf wrappers of the ticks and the registration of handlers, the
-- event sinks, the start-up checks, and the manifest of the archival Job.
pub mod Base
pub mod Clock
pub mod Config
pub mod Status
pub mod World
pub mod Store
pub mod Emitter
pub mod Recycler
pub mod Watchdog
pub mod Resque
pub mod Kube
pub mod Sla
pub mod Retention
pub mod WebBackground
pub mod DryRun
pub mod RestClient
pub mod Singleton
pub mod CrCache
pub mod Wire
pub mod Mutate
pub mod Tests
