-- ===== src/Lib.antt =====
-- The Config Server keeps the configuration of services in Git and serves it over HTTP; the Config
-- Agent polls it and rolls changes out. This library models their decision logic: what is computed
-- and which state is kept, with the network, Git, Kubernetes, YAML and JSON as parameters.
--
-- Agent.Debounce models internal/agent/debounce.go: `new_debouncer`, `record_change` and `due` are
-- NewDebouncer, RecordChange and Due. Agent.Backoff and Agent.FetchLoop model
-- internal/agent/fetch_loop.go: `next` is RetryBackoff.Next with its int64 arithmetic, `fetch_once`
-- is FetchOnce, and `run` plays the loop of Run over a list of rounds, each with all that the
-- environment answers in one turn; a longer run is a longer list, so no fuel is needed.
-- Registry.App and Registry.Cache model internal/registry/types.go and cache.go, one function for
-- each method that takes the cache's lock.
--
-- The files under Store model internal/store/store.go, internal/store/types.go and the records of
-- internal/parser/types.go. Store.Value has the decoded YAML values, with
-- mappings whose keys are all texts apart from those with another key; Store.Merge is deepMergeMap and
-- its copies; Store.Inherit is applyInheritedFields and what it calls. Store.Paths has classifyPath,
-- classifyDefaultsPath, ServicePath and the checks of names. Store.Versions is nextResourceVersion.
-- Store.Reload and Store.Reload.Load are the store's state, parseAndStore, parseAndStoreDefaults,
-- reloadUnlocked, RefreshFromRepo and ReloadFromRepo. The parsers, the digest and the parsing of
-- times are the record `Parsers` there, and what the Git client hands over is an argument of each reload.
-- Closing the channel `versionChanged` is a count of the closed channels; the store of the new
-- snapshot and that closing, two statements of the code, are one step here. Store.History is
-- History over the commits that the repository lists, Store.Listing has ListOrgs, ListProjects and
-- ListServices. Store.SecretIds is validateSecretWrites and
-- mergeSecretEntries; the search of uniqueSecretID runs on fuel, one turn more than ids are in use,
-- which is proved to be enough. Store.Revert is PrepareRevert, from what the
-- repository answers. Store.Changes, with its children Sealing, Apply and Remove, is ApplyChanges and
-- DeleteChanges: checks, files, sealing, commit, applies, reload and audit, in that order. The
-- repository, the sealer, the applier and yaml.Marshal are the record `Backend`; a closure's
-- variable goes in and out of it. Applying a revert and reads at an old commit are not modelled.
--
-- Parser.Nodes, Parser.Schema and Parser.Files are internal/parser: the checks on YAML nodes, the
-- schemas of the four files and ParseConfig, ParseEnvVars, ParseSecrets and ParseDefaults. What
-- yaml.Unmarshal makes of a file is the record `Yaml`. Parser.Served joins them to the store.
--
-- Handler.Payload, Handler.Read, Handler.Watch, Handler.Resolve, Handler.Respond and Handler.Batch
-- are parts of internal/handler/handler.go: the bodies and versions of reads; getConfig and
-- getEnvVars of the current state; waitForWatchChange over the stores
-- that its readings find, with WaitForVersionChange of the store; resolveEnvSecrets over any volume
-- reader; credentials, conditional requests and errors; and postConfigsBatch on a decoded body.
-- A watch runs over a list of turns, and where the list ends it is still waiting.
--
-- Gitops.Push and Gitops.Push.Restore are CommitAndPushFunc, CommitAndPush, DeleteAndPush and
-- RestoreServiceFilesAndPush of internal/gitops/repo.go. Their three loops share one body,
-- `attempt`, which takes the change of the files as an argument; `push_loop` counts
-- maxPushRetries attempts. go-git and the file system are the record `Git`, and what they document
-- of heads and files are the records HeadLaws and FileLaws. Gitops.Paths classifies and cleans
-- paths. Agent.Render.EnvSh is RenderEnvSH of internal/agent/render.go, and its child Shell an
-- independent reader of the script. Agent.Settings is internal/agent/config.go: LoadConfig, with
-- the flag set as an argument, and Validate, whose guards are a list that is gone through in order.
--
-- Config is internal/config/config.go: the settings of the server, applyDefaults and Validate. Of
-- a rate only its sign and kind are kept.
--
-- Secret.Volume is the reader of mounted secrets, internal/secret/volume.go: Read, Refresh, Forget
-- and Path. The file system at each read, and whether the context is done at each test, are
-- arguments; the clean-up of paths of `path/filepath` works on lists of parts. The watch of the
-- directories is not modelled.
--
-- Instants are natural numbers, nanoseconds from Go's zero `time.Time`; durations are signed. Go
-- maps are association lists (Base.Map), read by `lookup`; the order of such a list is the one in
-- which a loop goes through the map, which Go leaves open, and the statements hold for any list.
-- Native texts stand for Go strings. Not modelled: logging, metrics, HTTP routing, go-git,
-- the Kubernetes clients and the process start-up.
pub mod Base
pub mod Agent
pub mod Registry
pub mod Config
pub mod Handler
pub mod Gitops
pub mod Parser
pub mod Secret
pub mod Store
