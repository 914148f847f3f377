-- ===== src/Lib.antt =====
-- A verification library for garm-provider-docker, a GARM external provider that runs each GitHub
-- Actions runner as Docker containers on one host.
--
-- Parts and how they interact. GARM starts the provider as a fresh process for each command, so all of
-- the provider's state lives in Docker: the labels of containers, networks and volumes say what belongs
-- to which controller, instance and attempt (internal/spec), and the job network of an instance is the
-- claim that its create holds. internal/topology creates and removes these resources through the
-- daemon; internal/provider runs the commands over it, housekeeping included; internal/config and
-- internal/extraspecs bound what a pool may ask for.
--
-- Files and code.
--   Base          the shared tests, lists, results, label maps, texts and times. Go's error values keep
--                 the class that the code tests for; a missing key of a map reads as "".
--   Docker        internal/docker/client.go. Client is a record of operations over a state that each
--                 call passes on; ClientLaws says what the daemon documents of them, with creations by
--                 others allowed at every call, and Undisturbed excludes those. A container's removal
--                 with its volumes takes those that nobody named. Containers has what the
--                 provider reads of a container, and Engine the calls that return it.
--   Docker.Fake   internal/docker/fake.go: its maps as association lists, a call as a step (Invariant),
--                 and the states that steps reach; Contract relates its volumes to those of a daemon.
--   Spec.Labels   internal/spec/labels.go: the label scheme and MatchesPredicate.
--   Spec.Names    internal/spec/names.go: derived names and their check.
--   Spec.Cache    internal/spec/cache.go, diag.go, externals.go and gc.go: Keys (RepoKey), Identity (names
--                 and labels), Adoption (ValidateAdoptedCacheVolume, CacheIdentityFilter and the checks
--                 of a kind), Exclusion, Gc (EvaluateCacheEviction).
--   Spec.Env      internal/spec/env.go: BuildRunnerEnv.
--   Spec.OsRelease internal/spec/osrelease.go: RunnerOSKey.
--   Spec.Mounts, Spec.Dind  internal/spec/mounts.go and dind.go: the configurations of the runner and of
--                 its sidecar.
--   Spec.Helpers  internal/spec/diag.go and externals.go: the helper containers.
--   Topology.Teardown internal/topology/teardown.go: may_remove is the gate that every removal passes,
--                 remove_kind a phase, run_teardown the three phases in order. Phase has the lemmas on
--                 what a phase keeps; Complete, Gone and Generation those on what is gone.
--   Topology.Create, Cache, Sweep, Gc  the files of internal/topology of the same names.
--   Topology.Sweep.Orphans  internal/topology/sweep.go: the sweep with its daemon calls.
--   Topology.Reports  internal/topology/dindio_parse.go and exitreport.go: IoStat, Probe and Phase.
--   Config        internal/config/bytesize.go, dind.go, resources.go, flavor.go, extra_specs.go, cache.go.
--   ExtraSpecs    internal/extraspecs/extraspecs.go: the name checks of Parse, and Resolve.
--   Provider.Throttle internal/provider/throttle.go: the claim of a round by a stamp container.
--   Provider.Helpers  internal/provider/gc.go: the reaping of leaked helpers.
--   Provider.Instances, Resolver  internal/provider/resolver.go and status.go.
--   Provider.Commands  internal/provider/delete.go, stop.go, start.go, get.go, list.go, remove_all.go.
--   Provider.Start  internal/provider/runner_start.go, with revalidateReferencedCaches of create.go.
--   Checks        a small daemon that satisfies the laws, and the theorems applied at it.
--
-- Bounds. Loops over lists are structural recursion and need no fuel. The loop of EnsureCacheVolume
-- counts down the attempts that remain after the first, seven, so that it makes the eight of
-- maxCacheReconcileAttempts. Sizes are natural numbers, with the test against the largest int64 written
-- out. Times are natural numbers of nanoseconds, or of the unit that the parameter for time formats
-- uses; Go's saturating differences of times are not reached by them. The age limit of the cache garbage collection
-- is a duration of 64 bits that wraps, as in Go.
--
-- Not modelled. SHA-256, image reference parsing, time formats, JSON and TOML decoding and the daemon
-- are parameters or come before the modelled code. Log lines, error texts, contexts and timeouts are
-- left out, and so are the reports that a teardown may log first, and the log, exec and stats streams
-- behind those of Topology.Reports. The body of CreateInstance, the planning of its caches, the metadata
-- client, status reports and logging are not in this library. Case mapping is of ASCII letters; Go's
-- also maps others, as the Kelvin sign to k.
pub mod Base
pub mod Docker
pub mod Topology
pub mod Config
pub mod ExtraSpecs
pub mod Provider
pub mod Checks
pub mod Spec
