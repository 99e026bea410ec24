-- ===== src/Lib.antt =====
-- A model of the parts of flowbaton that decide: what a device answered, what an error means, and
-- which flows run. flowbaton drives devices by flows of commands; its engine calls drivers, the
-- Android driver calls an agent over gRPC, and a workspace planner picks the flows.
--
-- Pbwire models internal/android/pbwire (wire.go, messages.go), the proto3 codec of the agent's
--   messages. A byte slice is the list of its bytes, a uint64 a number below 2 ^ 64, a float64 its
--   64 bits. append_varint is appendVarint, consume_tag consumeTag, and so on; unmarshal_device_info
--   is (*DeviceInfo).Unmarshal: the loop that all messages share is decode, and the body of its
--   switch is switch_device_info. The fuel of the loop is the count of bytes, and each round takes
--   one at least. Pbwire/Messages holds the messages, Pbwire/RoundTrip and Pbwire/Robust the proofs.
-- Decimal models what the code uses of strconv.Atoi and of %d.
-- Grpcwire models internal/android/grpcwire: message.go (frame, readMessage, readUnaryBody),
--   status.go (trailerValue, statusFailure, decodeGrpcMessage) and what (*Conn).call of grpcwire.go
--   does with a reply. A reader is the bytes that it still holds and how it ends; header and
--   trailer lookups are functions of the reply. Dialling, streaming and deadlines are left out.
-- Engine.Errors models internal/engine/errors.go, Errors/Direct one error without its causes. An error
--   value is a reference into a graph, which may be cyclic; a node says what type switches and method
--   calls on it answer, a recovered panic included. The levels of inspect are those that
--   maxTerminalErrorTraversalDepth leaves, so the recursion is the code's own. Error texts are left
--   out.
-- Engine.Failures models internal/engine/failure_policy.go (execute_root_sequence is
--   executeRootSequenceWithPolicy) and the life of a selected root in executeFlowLifecycle of
--   internal/engine/flow_executor.go (run_root). Executing a command, the resolver and opening and
--   closing scopes and sessions are functions of the record Core on a state of any type.
-- Hierarchy models internal/hierarchy/tree.go: New, Walk and FilterVisibleWithin. The parsing of
--   bounds and the test of visibility are functions of the record Geometry there; parent pointers are
--   left out. Walk's stack runs on fuel, for which the count of the elements is enough.
-- Engine.Composite, Engine.Retry and Engine.Repeat model internal/engine/retry_handler.go and
--   internal/engine/repeat_handler.go behind the compilers' checks of a command's form: payloads and
--   their validity, the counter field, evaluation, one attempt, and the loops. Services holds what
--   the handlers call: children, linked flows, conditions, metadata, resets, the clock and
--   `ctx.Err()`, each of which may answer differently at every call. The loop of retry recurs on the
--   attempts that are left, that of repeat on fuel for every run. Retry/Forms holds the payloads of
--   retry, Retry/Trial one attempt.
-- Engine.Polling is the clock of internal/engine/clock.go and the two forms of polling, by attempts and
--   up to a deadline; Polling.Deadline says how far a clock that advances gets in a round, and
--   Polling.Steps what a loop has done when it ends. Engine.Settle is WaitForHierarchySettle of
--   internal/engine/settle.go on them, with fuel for 152 rounds, two more than the longest timeout
--   holds intervals.
-- Engine.Lookup models the loops of internal/engine/lookup.go and internal/engine/wait.go round one
--   look, findOnce, which is a parameter: Find, WaitUntilNotVisible and WaitUntilVisible, and the
--   adjusted timeouts. Their fuel is the intervals up to the deadline and two.
-- Engine.Results, Engine.Sealing and Engine.Ledger model the results of internal/engine/results.go,
--   their errors in carriers, and internal/engine/result_ledger.go: record_result is record, result_of
--   is result. A map is the list of its entries, an error in a carrier is told by the carrier's
--   address, and commands are of any type with a comparison. sort.Slice is a parameter.
-- Engine.Commands models commands of internal/model/model.go as trees, with Equivalent, and in Origin
--   that comparison, sameCommandSnapshot. reflect.DeepEqual on what a node holds beside its parts is a
--   parameter; it is not reflexive on a command that holds a NaN.
-- Engine.Dispatcher models finalizeExactErrorRequest of internal/engine/dispatcher.go, on what
--   internal/engine/registry.go declares. It redeems a propagated error from Engine.Ledger and
--   classifies by Engine.Errors; errors that the engine makes are references that the graph gives.
-- Matching models internal/matching (matching.go, refresh.go) on compiled selectors: Filters the test
--   of one element, Relatives what lies above, below or in which other element, Rank the order of the
--   candidates, and Refresh. The regular expressions and the test for a square are functions of a
--   record; elements are told apart by their order in the tree.
-- Engine.Stability is WaitForElementStability of internal/engine/stability.go on the same clock and on
--   Refresh, with fuel for 32 rounds, two more than its 3 s hold intervals of 100 ms.
-- Hierarchy.Rectangle models ParseBounds and FormatBounds of internal/hierarchy/geometry.go, with the
--   wrap-around of a 64-bit int.
-- Workspace models internal/workspace/planner.go: Select the tag filters, Order applyOrder,
--   Discover the walk over the roots and Discover behind loadConfig. The file system, the flow
--   parser, path.Match and sort.Slice are the fields of Environment, on which nothing is assumed.
--
-- The codec's messages travel in the frames of Grpcwire; call returns the bytes that Unmarshal reads.
-- Not modelled: the drivers, since what they do is I/O with a device; the flow parser and the script
--   runtime, which stand on a third-party YAML parser and JavaScript engine; nested flows, the
--   executor's pipeline of one command and the other command handlers; the session store, reports and
--   the command line.
pub mod Prelude
pub mod Pbwire
pub mod Decimal
pub mod Grpcwire
pub mod Engine
pub mod Hierarchy
pub mod Matching
pub mod Workspace
