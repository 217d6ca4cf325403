-- ===== src/Lib.antt =====
-- Models of teploy-sandbox, a daemon that runs code in disposable containers, and theorems about
-- them.
--
-- Run: internal/run. Run/Types has the data of manager.go and lease.go. Run/Lease is lease.go: each
-- method of Manager is one critical section of its mutex, a function from the registry and the
-- clock's reading to a result and the next registry; what other goroutines do while the runtime
-- works is an argument. Run/Lease/Calls puts the calls into sequences. Run/Paths has the checks on
-- names and paths of manager.go and cache.go, Run/ExecEnv that on an exec's environment, spelled
-- out in Allowed, and the file it is handed over in.
--
-- Run/Manager is the lifecycle of manager.go: Request what Create checks before it acts, World what
-- the manager has brought about and how Runtime, CacheStore and EgressProxy answer, Create, Destroy
-- and Reap the operations, each a function from a world to a result and the next world, and
-- Lifetime a run from its Create to its Destroy. Snapshots and Warm are the calls on images and on
-- the warm cache's templates, Warm/Commit a commit whose run is destroyed meanwhile.
--
-- Run/Runtime is runtime.go, with docker's answers as arguments: Args the argument lists and the
-- reading of exit codes, Quote the quoting of paths for a shell and the bound of ReadFile, Docker
-- the calls that give docker several commands, with a log of them, Docker/Settled what Snapshot
-- leaves behind, Docker/Deadline how Create and waitRunning end.
--
-- Run/Cache is cache.go's CacheStore: Tree a directory tree and its copying, Store the slug
-- directories, the run volumes and the in-use marks, Lock the lockfile hash, Boot, Commit and Sweep
-- the operations of those names with the rest of their file, Commit/Race two commits at once,
-- Sweep/Found what Sweep takes for a template and when it was last used, and Shelf the abstract
-- state that the operations implement. What other goroutines do during a boot, with the entries
-- that they remove from under its copy, is an argument. Run/Ulid is ulid.go.
--
-- Egress: internal/egress. Egress/Allowlist and Egress/Entry are proxy.go's allowlist and the check
-- of its entries; Egress/Address and Egress/Ip are what these use of Go's net and strconv. What a
-- create request's egressAllow is checked by is Egress/Entry. Egress/Pool is pool.go: OpenFor joins
-- what Entry has accepted with commas and reads it back by Allowlist's parse_allowlist.
-- Egress/Proxy is proxy.go's Proxy: its answers, with what it connects to; Tunnels the tunnels'
-- goroutines and CloseTunnels as steps, History and Drain what holds after any of them.
--
-- Server: internal/server. Server/Problem is server.go's check of the bearer token and its answers
-- to errors, Server/Sse its stream of an exec's output, with a client that reads it back,
-- Server/Api the requests, with Handlers and Exec the handlers, each a function of what its
-- collaborators answer and of the manager's world, and the routes; Exec/Checks spells out what an
-- exec request must satisfy. Server/Token is LoadOrMintToken, Token/Reload what the daemon's next
-- start makes of its file.
--
-- Go strings are lists of code points; the bytes of a string that is not UTF-8 are not modelled.
-- The case mapping of letters beyond ASCII is an instance argument (CaseTable). Errors keep the
-- sentinel that errors.Is finds, not their texts. Instants are nanoseconds since year 1, and a
-- time.Duration is an int64 with its wrap-around. The loops are structural recursions, with no
-- fuel, but for three: Boot's loop has the three attempts that the code gives it, and NewULID's
-- inner loops run on the number of bits held and of characters, which every round lowers;
-- waitRunning's loop has 302 rounds, which its deadline never lets it use up. A registry is an
-- association list; Reap's theorems take one that has each key once.
--
-- Of the file system under the warm cache, trees, missing entries, failures and the removal of
-- names are modelled; a failure is an answer of the record Disk, and so is an entry that others
-- remove before a copy comes by. SHA-256 is the instance argument Digest, and the theorems that
-- need it take it to have no collisions.
--
-- Not modelled: the docker command, sockets, HTTP and JSON, which are I/O or other libraries, with
-- the bytes that a tunnel copies; Serve and shutdown of internal/server, Exec's run of its command
-- and the egress network in runtime.go, the mux's own answers to what no route matches, and
-- main.go.
mod Prelude
pub mod Run
pub mod Egress
pub mod Server
