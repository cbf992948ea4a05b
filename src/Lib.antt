-- ===== src/Lib.antt =====
-- A verification library for a PBFT cluster in Go: replicas order client requests in three phases,
-- execute them on a map of counters, exchange checkpoints and replace their leader.
--
-- The parts and their files (paths from the repository's root):
--   * Config, Config/Replicas: pbft/configs/config.go, the cluster's sizes, ids and addresses.
--   * Messages: the messages of proto/pbft.proto, proto/view_change.proto and proto/client.proto.
--   * LeaderElection and its children: pbft/leader_election/round_robin.go.
--   * Transaction and its children: pbft/transaction_state.go, the votes for one sequence number.
--     AddPrePrepare is add_pre_prepare, AddPrepare add_prepare, AddCommit add_commit, checkCallbacks
--     check_callbacks.
--   * Store and its children: pbft/store.go. Store/Values has the map of values (State.apply is apply);
--     Commit is commit, AddCheckpointRequest add_checkpoint_request, stabilizeCheckpoint
--     stabilize_checkpoint.
--   * Node/Defs, Node/Requests, Node/Commits, Node/Views, Node/Steps: pbft/node.go, each handler under
--     its name in snake case, and the main loop with its goroutines as steps. Node/Window, Replies,
--     Primary, Numbers, Stable and Prepared are about them.
--   * ViewChanger/NewView, ViewChanger/Defs, ViewChanger/Steps: pbft/view_changer/view_changer.go, each
--     function under its name in snake case (runTimer's round is timer_fires, the goroutine of
--     startLeaderElection end_election); ViewChanger/Range, Supporters, Highest, Prepared,
--     Proposals, Timeouts, Justified, Announcements and Leaders are about them.
--   * Node/Invariant and its children: what every handler, goroutine and run of a node keeps of the votes
--     in its transactions; Node/Certificates reads it off, and Node/Flag is about the enabled flag.
--   * Agreement: several nodes of one cluster, each in a run of its own.
--   * Service and its children: pbft/service.go, the channels of createChannels and the waiting of Run in
--     pbft/node.go. Request is request, Enable enable, Disable disable, putOrIgnore put_or_ignore; the
--     other calls are receive_pre_prepare and its like. The events of Service.run are what can happen
--     to a replica; Service/Simulates, Calls and Refinement relate them to the steps of Node/Steps.
--   * Sender and its children: pbft/sender.go. SendRPCToPeer is send_to_peer with its loop attempts,
--     sendRPCToPeer send_rpc_to_peer, sendRPCToClient send_rpc_to_client.
--   * ViewChanger/Sender and its children: pbft/view_changer/sender.go, getClient as get_client.
--   * ViewChanger/Service and its children: pbft/view_changer/service.go, ViewChange as receive_view_change
--     and NewView as receive_new_view, with the loop of Run in pbft/view_changer/view_changer.go.
--   * Client and its children: client/client.go, the answers to one request. AddResponse is add_response,
--     GetSize get_size, GetResponse get_response; ready_result is the last part of Response.
--     Client/Calls has SendRequest (send_request) and Response, in two steps (take_response and
--     finish_response) between which other handlers run; Client/Http has client/http_server.go.
--   * LoadTester and its children: load_tester/scenarios/priodic_failure.go, Run as start and tick.
--   * Commands and its children: cmd/node/main.go, each function under its name in snake case.
--   * Base and its children: shared helpers. Base/Int64 has int64, Base/Decimal strconv.Atoi and Itoa.
--   * Samples and the modules named Examples and Scenarios: tests, and each theorem at a concrete input.
--
-- How the code is read. A struct is a record, and a method returns the new record. int64, and int on a
-- 64-bit machine, is a natural number below 2 ^ 64 in excess form: the integer v is v + 2 ^ 63, so that
-- comparison is that of the natural numbers, and arithmetic wraps by % 2 ^ 64. A string is the list of
-- its bytes. A Go map is an association list whose order stands for the unspecified order of range; a
-- set is a map to Unit. A nil slice is the empty list. A method under its lock is one step, and so is a
-- handler of the node; a go statement adds a task, which later runs at any time. Transactions that
-- goroutines point to live in the node's heap. none stands for a panic, log.Fatal or a call that does
-- not return. The calls of the sender and of the view changer are recorded in order in the field sent.
--
-- Bounds and fuel. Commit's loop takes one round more than there are committed entries as its fuel: each
-- round passes an entry. createPreprepareMessages' loop takes greatest - least + 1, a round for each number
-- and the last test. Configuration sizes and intervals are taken to be non-negative.
--
-- Requests wait in a channel of 50, as createChannels makes it. The attempts of a call are as many as the
-- configured retries, which is the fuel of their loop.
--
-- How the parts meet: Commands makes the replicas; Sender is how the outputs of a node get to its peers, whose
-- calls of the services are events; Service turns these into a run of the node; Agreement compares such runs; the
-- answers of nodes are the events of Client.
--
-- Not modelled: logging, metrics, gRPC and its connections (whether a call or a connection succeeds is a
-- parameter), the loading of configuration files, and the load tester but for its failures and sums.
-- The messages that cross the network are compared between runs, not carried by a model of the network.
-- Submessages that every sender fills in are taken to be present in a received message. Data races
-- between unlocked reads are not modelled. A call of Enable or Disable is one step, though it takes no lock, and
-- so is the comparison of GetSize and the call of GetResponse in the client's Response.
pub mod Base
mod Samples
pub mod Messages
pub mod Config
pub mod LeaderElection
pub mod Transaction
pub mod Store
pub mod Node
pub mod Agreement
pub mod Service
pub mod Sender
pub mod ViewChanger
pub mod Client
pub mod LoadTester
pub mod Commands
