-- ===== src/Lib.antt =====
-- A model of My Safe, a host security product in Go: Agents on the hosts watch files, logins and
-- processes and queue what they find; the control plane registers Agents, takes their events and hands
-- out their policies; the gateway passes its events to the Agent of its host; the installer puts Agent
-- and gateway onto a host. They share the types and the rules of internal/domain.
--
-- Which file is about which part:
--   Domain, Domain/Json          the types of internal/domain/model.go, and JSON values
--   Domain/Validate              internal/domain/validate.go; Validate/Bounds has its proofs
--   Security/Redact              internal/security/redact.go; Redact/Laws has its proofs
--   Store/Contract               internal/store/store.go, the interface of a repository
--   Store/Memory, Store/Listing  internal/store/memory.go; Memory/{Agents,Events,Policies} have proofs
--   Mtls/Identity                Issue and MatchesAgent of internal/mtls/mtls.go
--   Control, Control/*           internal/control/server.go: Auth has the authorization, Agents the
--                                registration, renewal and heartbeat, Events the ingestion, Policies
--                                the policies, Queries the listings; the proofs are a level below each
--   Agent/Queue                  internal/agent/queue.go; Queue/{Names,Batches,RoundTrip} have proofs
--   Agent/Flush                  the loop at the end of runCycle in internal/agent/runner.go
--   Agent/Policy                 internal/agent/policy.go, FetchPolicy of client.go, and the policy in
--                                runCycle and applyPolicy of runner.go; Policy/{Saved,Refresh} have proofs
--   Detector/Ssh                 internal/detector/sshauth/sshauth.go: the failures by address, with
--                                Ssh/Apply (applyRecord), Ssh/Lines (the reading of a log), Ssh/Config
--                                (New) and Ssh/State (validateState);
--                                Ssh/{Bounds,Recent,Alerts} and Ssh/Lines/{Parts,Progress} are proofs
--   Detector/Runtime             internal/detector/runtimewatch/runtimewatch.go: the entries and the
--                                events, with Runtime/Capture (capture), Runtime/Maps (the maps of a
--                                scan), Runtime/Scan (Scan), Runtime/Config (New) and Runtime/State
--                                (validateState, saveState); the proofs are a level below each
--   Gateway/Feed                 Validate and Decode of internal/localfeed/localfeed.go
--   Gateway/Outbox               internal/gatewayevents/outbox.go; Outbox/Delivery has its proofs
--   Installer/Inspect, Paths,    internal/installer/inspect.go and model.go; Plan/{Port,
--   Url, Plan                    Outcomes,Sound} have proofs
--   Installer/Transaction,       internal/installer/transaction.go: the changes, and undoing them;
--   Restore                      Transaction/{Undo,Rollback} have proofs
--   Installer/Steps, Revert,     internal/installer/apply.go and nginx.go: the steps of an installation,
--   Apply                        its rollback, and their order; Apply/{Kept,Phases,Done} have proofs
--   Prelude/*                    shared: lists, dictionaries, integers, the functions on strings
--   Tests/*                      the theorems at concrete inputs
--
-- A function of the source is the definition of the same name in snake case; its early returns are the
-- branches, in their order. A handler takes the parts of the request that it reads and the state of the
-- store, and returns the response and the new state: the handlers are functions of any `Store`, and the
-- theorems about them are for the repository in memory, whose mutex makes each call one step.
--
-- Conventions. A string is the list of its bytes (`Text`); time is a number of nanoseconds since Go's
-- zero time; int and int64 are integers, with the wrap-around of `+ 1` written out; a map is an
-- association list in which the first entry of a key counts; an error is a constructor. sort.Slice is
-- the stable order, of which Go promises less.
--
-- Parameters, for what is not in the repository: SHA-256, json.Marshal, the AEAD and the JSON codec of
-- the queue and of the policy file, the parsing of certificate requests, net.ParseIP, url.Parse, URL.String,
-- strconv.Quote, filepath.Abs, the pattern that finds an Nginx directive, and the JSON of events, issues and
-- the installed release. The results of decodeJSON, of id.Random and of calls of the operating system
-- are arguments. The hypotheses about parameters are that SHA-256 gives 32 bytes, that the AEAD opens what it sealed, that a queued event
-- survives encoding and decoding and fits a queue file, that a policy that JSON decoded is the same after
-- encoding and decoding, that an event of the gateway survives encoding and decoding, and that the path of a URL
-- is written as it is where it needs no escape.
--
-- In an installation the files, links and devices of the host are a dictionary of paths, whose changes
-- the model follows, and the directories that ensureDirectory makes are another. The journal, a file
-- beside the backups, is a value of the transaction. What commands themselves write is left out, as are
-- the directories above an installed file. A command may answer anything, also depending on all that ran
-- before it.
--
-- The flush loop runs on fuel; more rounds than queued files are enough, since each round that goes on
-- removes a file. It has the queue for itself: that the feed of the gateway adds files meanwhile is left out.
--
-- Not modelled: routing and middleware, the SQL repository, the reverse proxy of the gateway, the file
-- integrity detector, in the SSH detector the parsing of a line, the journal and the saving of its state, in
-- the runtime detector the reading of its state, the search of the Nginx files, the checks of an installation
-- before its transaction, the comparison of versions, the release tools, and the commands.
pub mod Prelude
pub mod Domain
pub mod Security
pub mod Store
pub mod Mtls
pub mod Control
pub mod Agent
pub mod Detector
pub mod Gateway
pub mod Installer
pub mod Tests
