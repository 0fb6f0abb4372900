-- ===== src/Lib.antt =====
-- GroupBridge keeps the groups of a target (GitLab, Vault) in step with the groups of a source
-- (Keycloak). A webhook takes signed event hints, a queue merges them, and a reconciler turns the
-- source's current state, under a configuration's rules, into requests to the targets. A store on
-- disk remembers which memberships and groups GroupBridge manages.
--
-- The parts, their code, and the files that model them:
--
--   internal/model/model.go          Model
--   internal/state/store.go          State: Ledger (the data, the keys, saveLocked), Opening (Open,
--                                    Close), Operations (the methods), Requests (the methods as
--                                    data); proofs in Saving, Undo, Kept, Methods, Durable, Absences,
--                                    Moves
--   internal/webhook/keycloak.go     Webhook: Events (envelope, classify), Signature
--                                    (validSignature, ParseInt), Handler (ServeHTTP, replayed);
--                                    proofs in Classified, Genuine, Accepted, Replays
--   internal/reconcile/events.go     Events: Queue (eventQueue), Routes (routeIndex); proofs in
--                                    Bounded, Sound, Covered, Linked, Indexed
--   internal/reconcile/trigger.go    Events/Burst
--   internal/reconcile/reconciler.go Reconcile: Paths, Rules, Plan (the jobs of reconcileGroups),
--                                    Run (its health checks and its jobs), Cycle (RunOnce,
--                                    RunGroupOnce, runEventFullRepair, migrateCanonicalMappings),
--                                    Batch (processEventBatch); proofs in Confined, Secrets,
--                                    Established, Orderly, Planned, Retired, Guarded,
--                                    Throttled, Tombstones, Lasting, Resolution
--   internal/provider/gitlab/client.go
--                                    Gitlab: Api (data, requests), Groups (ensureGroup), Users
--                                    (findUser), Members (the endpoints, listMembers,
--                                    currentIdentity), Terms, Settle, Prune, Sync (SyncGroup);
--                                    proofs in Removals, Limits, Quiet, Settled,
--                                    Unpruned, Deletions, Matches, Paging
--   internal/provider/provider.go    Reconcile/Rules (the registry, the interfaces a provider has)
--   internal/config/config.go        Reconcile/Rules (a rule's record), Config: Types (the data, the
--                                    defaults), Checks (references, URLs, paths, declaredTargetPath,
--                                    Secret), Targets, Rules and Validate (Validate, Decode); proofs
--                                    in Mapped, Ready, Valid
--   internal/credential/credential.go
--                                    Credential: Runes (what it uses of Go's Unicode packages),
--                                    Reference (New, Static), Loading (Load), Stable (StableLoader);
--                                    proofs in Newest
--   internal/source/keycloak/client.go
--                                    Keycloak: Urls (the paths and queries), Api (data, New), Token
--                                    (token, getOptional, get), Pages (listGroupsPage, listMembers),
--                                    Groups (collectGroup, ListGroups, ReadGroup); proofs in
--                                    Answering, Listed, Forest, Collected, Members, Distinct,
--                                    Attempts
--   internal/provider/vault/client.go
--                                    Vault: Policy (policyFor, managedName), Api (data, New), Session
--                                    (loginLocked, ensureToken, request), Access (discoverRuntime,
--                                    SyncAccessGroup and its checks); proofs in Provisioned, Shown,
--                                    Sound, Answering, Complete
--   internal/metrics/metrics.go      Reconcile/Run (the counters)
--
-- The helpers are in Base: byte strings, decidable equality, association lists, maps by key, and
-- results with a state. Each component keeps its tests and the runs of its theorems in Tests.
--
-- How the code is represented. A Go string is a list of bytes, a Go map an association list, an
-- integer a native number or, where it has a sign, ℤ. A method takes the receiver's record and
-- returns the new one; the mutex makes it one step. An error is a value, with its kind but without
-- its text. Time is in nanoseconds, and each reading of the clock is an argument or, in Reconcile,
-- a call of `tick`. Counters wrap at 2^64. Logging and contexts are left out, but for an error that
-- tells of the end of one.
--
-- What the repository does not hold is a parameter: HMAC and JSON decoding in Webhook, the failures
-- of the operating system in State (`Faults`), the keyed hash of the routes, the Unicode tables of
-- ToLower and EqualFold and of the verb %q, SHA-256, the parser of URLs, the environment and the
-- files of credentials (`Host`), the three servers with HTTP and JSON in front of them (`Api`,
-- `Keycloak`, `Vault`), and for the reconciler the source, the providers, the loader of the secret
-- and the clock (`Outside`). One theorem, on the route index, assumes of the keyed hash that it has
-- no collision, and one, on the configuration, that ToLower leaves the empty string as it is.
--
-- Bounds. The queue holds 10000 routes and the webhook 10000 deliveries, as in the code. The
-- loops go over lists, but for these: the pages of a group's members in GitLab, which the server
-- ends, run on fuel, of which as much as the number of the last page is enough; the pages of a
-- list in Keycloak run on fuel, of which more than the length of the list is enough; the
-- collection of Keycloak's groups runs on a depth, of which that of the tree of groups is enough;
-- and the wait for a burst is a relation of its rounds, each of which takes an arrival or
-- returns. A number that GitLab gives is taken to have no sign, and so is a rule's number of
-- removals outside Config, which refuses a negative one; the observations of an absence, an int
-- in the code, are a natural number as well. The saves of one migration of mappings meet the same
-- faults. The order of a Go map's iteration is the order of the association list.
--
-- Not modelled: HTTP, JSON and YAML, the refusal of redirects and the timeouts of the clients, and
-- the process's start, shutdown and servers.
pub mod Base
pub mod Model
pub mod State
pub mod Webhook
pub mod Events
pub mod Reconcile
pub mod Gitlab
pub mod Credential
pub mod Keycloak
pub mod Vault
pub mod Config
