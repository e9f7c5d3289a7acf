-- ===== src/Lib.antt =====
-- local-preview: a server that builds a preview of each commit of a repository, keeps the artifacts
-- under content hashes, and starts the processes of a preview when a request needs them.
--
-- Parts and files:
-- - Base: shared notation, lists, maps as association lists, tests on numbers.
-- - Db: the tables of internal/db (deploys.go, settings.go, schema.sql) as records and lists; each
--   query is one function.
-- - Supervise: internal/supervise/supervise.go. Supervise.Keys has Key; Supervise.Manager the process
--   table, one function per critical section on m.mu, and Supervise.Manager.Reach interleavings of
--   them, with the starts that are between two sections of `fail`; Supervise.Manager.Stale a start that
--   breaks off late; Supervise.Reap the pass of the reaper.
-- - Store: internal/store/cache.go, the local cache in front of the durable artifact tier.
-- - Supervise.Collect: GCDeploy, what is reclaimed for a deploy that is gone.
-- - Supervise.Init: the record of completed init steps, of the same file.
-- - Db.Listing: the filters and pages of ListDeploys and CountDeploys.
-- - Hashkey: internal/hashkey/hashkey.go, which files of a commit a content hash covers.
-- - Retain: internal/retain/retain.go, the retention policy and its sweep.
-- - Reconcile: internal/reconcile/reconcile.go, the pass that repairs the durable tier.
-- - Cloudscale: internal/cloudscale/cloudscale.go, scale-in protection of instances.
-- - Fleet: internal/fleet/fleet.go, the control node's registry of workers and their placement.
-- - Build: internal/build/build.go and artifacttier.go. Build.Request is RequestDeploy; Build.Turn is
--   process, with Build.Manifests, Build.Sides and Build.Process for the parts of buildDeploy;
--   Build.Unreachable is EvictUnreachable and Build.Retry startWithRetry. Build.Env lists what the
--   queue calls outside. The other modules of Build are proofs, named for what they show.
-- - Watch: internal/watch/watch.go. Watch.Globs has the branch patterns, Watch.Poll the passes.
-- - Execstream: internal/execstream/execstream.go, the frames of an exec session; Execstream.Pump the
--   two pumps of internal/supervise/exec.go, Execstream.Client the session of cmd/server/exec.go.
-- - Db.Sessions: internal/db/sessions.go, sessions and preview grants.
-- - Proxy: internal/proxy/proxy.go. Proxy.Access is the gate of protected previews, Proxy.Hosts the way
--   from a host to a deploy.
--
-- A watcher's pass or a request puts a deploy in the queue, a worker builds it and makes it durable, and
-- the proxy finds it again under the host that is printed for it. The supervisor starts what the
-- database's deploys name, its reaper stops what is idle, the cache drops artifacts that no process
-- pins, and the fleet places on a worker what one node would start itself.
--
-- State is explicit: a Go map is an association list, a pointer to a process is its uid, a time is a
-- number of nanoseconds, and an error is a value. The loop of CreateDeploy has as many rounds as the
-- sha has characters from the seventh on. The loop of WriteFrame has 1 + length / MaxPayload rounds,
-- and a loop that reads frames one more than the stream has bytes, since a frame takes five at least;
-- both are proved to be enough. The exit poll of Exec has one round more than the number of the first
-- round that ends past its deadline, which is proved to be enough. startWithRetry has as many rounds as attempts. Every other loop is over
-- a list. A worker's turn on a deploy is one step, so that two workers' turns do not overlap. Go's
-- unstable sorts are insertion sorts by the same comparison. Counts and durations that the setters keep
-- from being negative are natural numbers.
--
-- Not modelled: HTTP, git, Docker, the SQLite driver, the file system and the transports. Where a
-- decision depends on them, such as what RemoveAll leaves of a directory, what ExecInspect answers,
-- whether an insert fails, what the rendezvous hash of a worker is, which commit a ref names or whether a
-- build step succeeds, it is an argument or a field of the records Git, Env, Tokens, Attached, Request
-- and Database. The database's other errors are not modelled, nor are the 256 places of the work
-- channel: a sender that waits for a place is one of the channel's ids.
pub mod Base
pub mod Build
pub mod Cloudscale
pub mod Db
pub mod Execstream
pub mod Fleet
pub mod Hashkey
pub mod Proxy
pub mod Reconcile
pub mod Retain
pub mod Store
pub mod Supervise
pub mod Watch
