-- ===== src/Lib.antt =====
-- better-unraid-mcp is an MCP server that lets an agent read and change an Unraid server. A request comes
-- in over HTTP (src/transport/http.ts), is routed to a session (src/transport/http-sessions.ts), and
-- calls a tool (src/tools/). A tool that changes state first passes a gate (src/tools/_shared/confirm.ts),
-- which may ask the human through the client (src/tools/_shared/elicitation.ts), then sends GraphQL
-- operations through a cache (src/graphql/snapshot-cache.ts), a client with retries (src/graphql/client.ts)
-- and a rate limiter (src/graphql/rate-limit.ts), or commands over SSH (src/shell/executor.ts), and answers
-- with a capped text (src/tools/_shared/respond.ts, truncate-output.ts).
--
-- Files and code:
-- Base: what all parts share. Text is a list of UTF-16 code units, `u "..."` a literal.
-- Effects: handlers as state passing over the operations that were sent, the newest first. A client is a
--   function from the operations so far to a reply or a thrown message.
-- Json: JSON values and `JSON.stringify(value, null, 2)`; Json.Size bounds its length.
-- Respond, Respond.Truncate: formatResponse, truncateOutput, truncateJsonPayload.
-- Gate: requireConfirmation, requireRiskAcknowledgement, their interactive forms, the elicitation channel.
-- Tools.VmAction, ArrayAction, ParityCheck, ArrayDiskAction, DockerAutostartSet, NotificationDelete,
--   NotificationArchive: the handlers of src/tools/vm/vm-action.ts, src/tools/array/array-action.ts,
--   parity-check.ts and array-disk-action.ts, src/tools/docker/autostart-set.ts, and
--   src/tools/notification/notification-delete.ts and notification-archive.ts, from their gates to
--   their answers.
-- Tools.PluginChange: src/tools/plugin/plugin-add.ts, plugin-remove.ts and _shared.ts.
-- Tools.QuoteShell: src/tools/_shared/quote-shell.ts. Its Reader is no part of the program: it splits a
--   command into words by the quoting rules of the POSIX shell, and commands are judged by it.
-- Tools.Ssh: what the tools that send commands over SSH share (src/tools/_shared/require-shell.ts, the
--   types of src/shell/executor.ts); Tools.Ssh.Laws reasons about such handlers command by command.
-- Tools.ServiceAction, ZfsSnapshotAction, SystemPower, MoverAction, DiskSpin, UserScriptRun: the handlers
--   of src/tools/service/, zfs/zfs-snapshot-action.ts, system/system-power.ts, mover/mover-action.ts,
--   disk/disk-spin.ts and userscripts/user-script-run.ts.
-- Tools.RawGraphql: src/tools/graphql/. A document keeps its definitions and the fields they select;
--   RawGraphql.Fields compares the search for risky fields with what the document's operation runs.
-- Tools.ApikeyManage: src/tools/apikey/apikey-manage.ts.
-- Tools.UnassignedAction: src/tools/unassigned/unassigned-action.ts and what it uses of _shared.ts.
-- Tools.SystemHealth: the checks, the verdict and the rollup of src/tools/system/system-health.ts; the
--   percentage is the rounded exact quotient, which the source computes in doubles.
-- Tools.Share: src/tools/share/ but for share-list.ts. Parse and Name have the parsers and names of
--   _shared.ts, Query its forms, WriteFlow the steps of write-flow.ts, Write the handlers of
--   share-create.ts and share-edit.ts, Delete that of share-delete.ts.
-- Tools.Registry: TOOL_REGISTRATIONS and registerAllTools of src/tools/registry.ts.
-- Graphql.TokenBucket: src/graphql/rate-limit.ts, in thousandths of a token, which are exact.
-- Graphql.UnraidClient: src/graphql/client.ts and the responses of src/graphql/execute.ts.
-- Graphql.CachingExecutor: src/graphql/snapshot-cache.ts, a call in two parts around its await.
-- Graphql.LiveStore: src/graphql/live-store.ts. Graphql.MetricRing and
--   Graphql.MetricWindow: the ring of src/graphql/metrics-history.ts and its reads.
-- Shell.Executor: src/shell/executor.ts between its awaits. Its Laws hold the step relation.
-- Transport.Sessions: src/transport/http-sessions.ts; Transport.Sessions.Reachable has the events.
-- Transport.Http: src/transport/http.ts.
-- Tests: the theorems at concrete inputs.
--
-- Bounds and fuel. The loop that shrinks a truncated head gets five halvings, after which the head is below
-- the smallest length that the loop goes on from. The retry loop gets three rounds, which every policy stays
-- within. Times are natural numbers of milliseconds. Numbers from the API are natural numbers.
-- Case mapping is that of the ASCII letters, so names that differ only in the case of other letters count
-- as different, where the source takes them for the same.
--
-- Not modelled: redaction (regular expressions), input schemas and registrations with their texts, logging,
-- sockets and SSH channels, generated types, and the tools that the manifest lists as such. Parameters stand
-- for the URL parser, the JSON parser, GraphQL's parser and validation, the digest, and the MCP transport.
mod Base
pub mod Effects
pub mod Json
pub mod Respond
pub mod Gate
pub mod Graphql
pub mod Shell
pub mod Transport
pub mod Tools
mod Tests
