-- ===== src/Lib.antt =====
-- The verification library of o-pi, the extensions of a coding agent.
--
-- The program's parts and their files:
--
-- * Approval (src/approval, with src/bash-tool/pattern-guard.ts). `Approval` has the types of
--   src/approval/types.ts; `Approval/Policy` is `evaluateApproval` of policy.ts; `Approval/Store` is
--   `FileApprovalStore` of store.ts, its remembered rules as lists and its file as a function that
--   is read; `Approval/Builder` is request-builder.ts; `Approval/PatternGuard` is
--   pattern-guard.ts; `Approval/Gate` is the handler of gate.ts, from a tool call to a verdict, with
--   the state that the closure keeps passed explicitly and every outside answer (configuration,
--   choice of the user, file) in a record of the world. The matchers of globs and regular
--   expressions, the reading of JSON and the paths of the host are parameters: `none` from a
--   matcher is an exception.
-- * Prune (src/prune/prune.ts): the pruning of tool transactions from a history, the state that is
--   persisted in the session, and the calls that stay visible; `Prune/Cost` has the estimates of
--   tokens, whose counting is a parameter, and the choice of rates.
-- * Web (src/web-tools): `Web/SnapshotCache` is fetch/snapshot-cache.ts, `Web/SearchCache` is
--   search/search-cache.ts, `Web/RequestGate` is search/search-request-gate.ts. Time is an
--   argument, and a sleep lasts at least as long as it is asked to; calls that interleave are a
--   sequence of events.
-- * Bash (src/bash-tool): `Bash/OutputCapture` is output-capture.ts, with the bytes of the log in the
--   state.
-- * Filesystem (src/filesystem): `Filesystem/AccessPolicy` is kernel/access-policy.ts,
--   `Filesystem/MutationQueue` is platform/node/mutation-queue.ts; calls, releases, aborts and the
--   disposal are a sequence of events.
-- * FileTools (src/file-tools): `FileTools/ObservationStore` is runtime/observation-store.ts.
-- * Schema (src/schema-validator.ts): `Schema/Json` has the values, `Schema/Keywords` the checks of
--   each kind of value, `Schema/Validate` the validation. Numbers, regular expressions and the quoting
--   of strings are parameters. References of a schema may run in a circle, on which the code recurs
--   without end: the depth of the recursion is bounded by fuel, and a run that needs more is `stuck`.
--   A record is read at a key with what it inherits from `Object.prototype`.
-- * FileTools/Edit (src/file-tools/edit) is command.ts: the replacements, `Edit/Input` the check of the parameters,
--   `Edit/Snapshot` what is committed to the file. The search has a round for each character of the
--   text and one more, which is enough since each round but the last goes on behind a needle.
-- * Filesystem/TextService (src/filesystem/services) is text.ts, where `TextService/Slices` is the reading of
--   ranges of lines.
-- * Lsp (src/lsp): `Lsp/Changes` is incrementalContentChange of documents.ts; `Changes/Positions` states
--   what a position means in the protocol.
--   The search for the shared end has a round for each character of the first text, after which its
--   condition fails. `Lsp/Documents` is the class LspDocuments of the same file; a queued operation is
--   two events, its entry and its end.
-- * Filesystem/PathCatalog (src/filesystem/services) is the edit distance of path-catalog.ts.
-- * Web (src/web-tools/network): `Web/NetworkPolicy` is the part of network-policy.ts on addresses.
-- * Common holds what the parts share: texts as lists of UTF-16 code units, Boolean tests on
--   numbers and texts, lists, and maps that keep the order of insertion, as a JavaScript Map does.
--
-- The gate asks the policy, the policy asks the store first, and the answer of the user becomes a
-- rule of the store. An edit takes the hash that the store of observations has for the file, and its
-- parameters are values of Schema/Json; the other parts are independent of one another.
--
-- All loops are structural recursion on lists, so that no fuel is needed, but where a file says
-- otherwise.
--
-- Not modelled: the rendering of dialogs and reports, the processes, sockets and files behind the
-- tools, the parsers of third parties, and the parts of the repository that the files above do
-- not name. Numbers of JavaScript are taken as natural numbers where the code counts.
pub mod Approval
pub mod Bash
pub mod Common
pub mod FileTools
pub mod Filesystem
pub mod Lsp
pub mod Prune
pub mod Schema
pub mod Web
