-- ===== src/Lib.antt =====
-- The core of musdash: the job queue and its worker, the log streams, the reconciler's redeploy
-- plan and sidecar jobs, the routing and the gates of a deploy, the Compose pipeline, the environment
-- variables, the volumes of stacks, the sessions and the gate in front of the password hash.
--
-- How the parts interact. A request handler enqueues a job (src/queue/index.ts); the one worker
-- (src/queue/worker.ts) claims it, runs the handler of its type and records the outcome, on the job
-- and on the deployment that its payload names (src/db/queries.ts). The reconciler
-- (src/reconciler.ts) looks at the deployments of a resource and decides whether to enqueue another.
-- A deploy of a stack validates the model that `docker compose config` gives
-- (src/compose/validate.ts), transforms it (src/compose/transform.ts), routes its services and
-- waits for them (src/jobs/compose-plan.ts). The logs of a container arrive as framed chunks
-- (src/docker/demux.ts) and end in a ring buffer for each resource (src/logs/buffer.ts); the output
-- of a deploy is kept for its page (src/events.ts). The variables of the Env tab are read and written
-- as text (src/env/parse.ts) and expanded (src/env/interpolate.ts); a stack's file gets those that it
-- refers to (src/compose/env.ts) and secrets for its placeholders (src/compose/placeholders.ts). A
-- new container must pass the health gate (src/jobs/health-gate.ts). A deleted stack leaves volumes,
-- which are measured and removed by rules on their names and labels (src/volumes).
--
-- Which file models what:
--   Queue.antt         src/queue/index.ts: enqueue, claim, complete, fail, recoverOrphanedLeases and
--                      the queries. Queue/Table has the rows and the shapes of the SQL statements,
--                      Queue/Fields the payload and payloadClauses, Queue/Reach the queue and the
--                      worker as a step relation.
--   Deployments.antt   the deployments table, as far as the worker and the reconciler use it.
--   Worker.antt        src/queue/worker.ts: tick and runJob on a state of jobs, deployments, events,
--                      the clock and the busy flag.
--   Demux.antt         src/docker/demux.ts: createDemuxer, and the loop of streamLogs over its frames
--                      (src/docker/impl.ts); Demux/Lines is createLineAssembler.
--   Logs.antt          src/logs/buffer.ts: the ring (Logs/Ring) and the map of rings (Logs/Buffers);
--                      src/events.ts: the logs of deployments (Logs/Deploys).
--   Reconcile.antt     src/reconciler.ts: backoffMs and redeployPlan (Reconcile/Plan), one pass of
--                      reconcileOnce (Reconcile/Pass), the bootstrap jobs of the proxy and the
--                      build daemon (Reconcile/Sidecars).
--   Deploy.antt        src/jobs/health-gate.ts (Deploy/HealthGate).
--   Env.antt           src/env/parse.ts (Env/Chars, Env/Values and Env/File) and
--                      src/env/interpolate.ts (Env/Interpolate).
--   Volumes.antt       src/volumes/select.ts (Volumes/Select) and src/volumes/sizes.ts (Volumes/Sizes,
--                      with the sequences of its events in Volumes/Shared).
--   Password.antt      src/password.ts: createGate (Password/Gate) and the warnings (Password/Busy).
--   Resources.antt     src/resource-state.ts, and the dot of an environment (navTree).
--   Auth.antt          src/auth.ts: the sessions (Auth/Sessions).
--   Stack.antt         src/jobs/compose-plan.ts: routingPlan and servicePortFor (Stack/Routing), the
--                      order of the route writes (Stack/Hosts), the gate (Stack/Gate).
--   Compose.antt       src/compose/types.ts, validate.ts and transform.ts, over a JSON value
--                      (Compose/Json): keys, mounts, memory, the service rules, the whole model, and
--                      the transform; src/compose/env.ts (Compose/Environment) and
--                      src/compose/placeholders.ts (Compose/Placeholders).
--   Build.antt         src/build/memory.ts: the memory cap of the build daemon (Build/Memory).
--   Prelude.antt       the names, tests and list lemmas that the parts share, with a JavaScript Map
--                      (Prelude/Dict) and toLowerCase (Prelude/Case).
--
-- How the code is read. State is passed explicitly; a throw is none or a constructor of its own. A
-- table is the list of its rows, and a statement runs on it alone, as SQLite's do. Between equal
-- times ORDER BY takes the first row. Times are natural numbers of milliseconds, which order as the
-- ISO texts do. Numbers that stay far below 2^53 are natural numbers; where a subtraction can fall
-- below 0 its use says why the cut-off is the same. Text that is only compared is a String; text
-- that is walked is a list of character codes. toLowerCase is modelled on the letters of ASCII, and
-- the order of two texts is by character. A JavaScript object is the list of its own properties, each
-- name once.
--
-- Fuel: the parse of a buffer (Demux.parse_loop) takes the length of the buffer, and every round but
-- the last consumes at least a header. The digits of a number (Prelude/Show) take the number and
-- one.
--
-- The health gate polls on fuel, and a round for each second up to the deadline, with one more, is
-- enough. A draw has the 64 refills of the source.
--
-- Parameters: what Docker, the sidecars and a container answer, the random source and the encoder of a
-- secret, what an object inherits under a name, the process nonce, the tokens of sessions and the
-- email of a user, what a job's handler does, the text decoder of a stream, and isValidImageRef
-- (src/docker/client.ts), whose pattern is not modelled. The sentences of errors and reasons are
-- named by constructors.
--
-- Not modelled: Docker, Caddy, GitHub, HTTP routes, views, accounts, files and timers, which
-- drive or show the parts above; the Compose prescan, the deploy handlers and the builds themselves.
pub mod Auth
pub mod Build
pub mod Compose
pub mod Demux
pub mod Deploy
pub mod Deployments
pub mod Env
pub mod Logs
pub mod Password
pub mod Prelude
pub mod Queue
pub mod Reconcile
pub mod Resources
pub mod Stack
pub mod Volumes
pub mod Worker
