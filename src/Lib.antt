-- ===== src/Lib.antt =====
-- directswarm: a client that fetches chunks directly from the storers of a swarm and pays them by
-- cheques. What is modelled is the logic of the crates rust/ds-core and rust/ds-net that decides
-- whom to ask, how far to run into debt, what to pay and how to read what peers send.
--
-- Addresses and proximity (rust/ds-core/src/swarm.rs, `bucket_prefix` of
-- rust/ds-net/src/schedule.rs): Swarm. An address is the list of its 32 bytes. The topology cache
-- (rust/ds-core/src/topology.rs): Topology, with `TopologyCache::get` as `get_node`. It asks Swarm
-- which nodes cover a chunk.
--
-- The work of a fetch (`WorkPool`, `Dispatch` and the loop of `fetch_scheduled` in
-- rust/ds-net/src/schedule.rs): Dispatch, with `Dispatch::new` as `fresh_dispatch`,
-- `Dispatch::next` as `next_member`, the routing of the chunks as `route`, and the loop's
-- iterations as `turn` in Dispatch.Loop. The work pool is shared with the connections, so each
-- filling of a slot sees any pool.
--
-- The debt of a connection (`Mirror` of rust/ds-net/src/growth.rs, `Pacer` of
-- rust/ds-net/src/schedule.rs): Mirror and Pacer. `start` is what `run_established` begins with;
-- `emitted`, `prepaid_emitted` and `refreshed` are what `emit`, `emit_prepay` and `refresh` do to
-- the pacer, and Pacer.Emission joins them to the cheque. An instant is a number of nanoseconds,
-- and Pacer.Exposure puts the operations in any order. What is remembered of peers
-- (rust/ds-net/src/peerstate.rs): PeerState, with `record` as `observe`.
--
-- Its file is PeerState.File, with `open` as `open_file`.
--
-- A connection (`drive`, `measure_lambda` and `run_established` of rust/ds-net/src/schedule.rs):
-- Connection. The loop of `drive` is cut where it awaits, into a program counter `At` with the
-- local variables that are live there; Connection.Loop has one function for each piece and
-- Connection.Events puts the connection's own steps, the ends of its tasks and the doings of
-- others into any order. Connection.Conserve.World has several connections over one shared state,
-- from where each begins its loop. `measure_lambda` is Connection.Lambda, and what
-- `run_established` does around the loop is Connection.Established; the service rate, computed in
-- floating point, is an argument there. A loop of `drive` needs no fuel, since every round is a
-- step; `measure_lambda` runs over the list of its rounds and of its probes.
--
-- Which members there are to dial (`select_storers`): Dispatch.Select. The multiaddr library's
-- parser is an argument.
--
-- The end of a fetch (`fetch_scheduled`): FetchScheduled has the fallback worker, which is taken
-- after the connections, and the chunks that were left in the pool.
--
-- The file behind a root (`fetch_to_file` of rust/ds-net/src/fetch.rs): FetchFile. The joiner and
-- the decoder of a span are arguments; what the disk does at each offset is an argument too, so
-- that a run can end at any write or sync, and a failed write of the sidecar leaves any first part
-- of it (Resume.Torn).
--
-- The chunk store (rust/ds-net/src/store.rs): ChunkStore, its data file a list of bytes and its
-- sidecar a text; what the disk does to a write is an argument. The resume sidecar
-- (rust/ds-core/src/resume.rs): Resume. Numbers and lines of text files: Base.Decimal and
-- Base.Split. The hex crate is the interface Hex, which Resume.PlainHex fills.
--
-- Payment (`emit_settlement_cheque` of rust/ds-net/src/direct.rs, `FastLedger` of
-- rust/ds-net/src/ledger.rs): Cheque and Ledger. The peer and the transport, the signer of another
-- package and the JSON text of a cheque (`encode_cheque_json_bee`) are not modelled: the record
-- `Peer` says what they do in one call. A call returns its outcome or its error, and the books.
-- Cheque.Sequence puts calls one after the other; Ledger.Persister has the loop that writes the
-- ledger, Ledger.File the text of its file, with the decimal text of a number as the interface
-- U256Text; Cheque.Concurrent splits a call at its atomic operations on the shared counter.
--
-- The wire (`decode_varint`, `encode_varint`, `parse_announce_threshold`,
-- `parse_settlement_headers` of rust/ds-net/src/direct.rs, `parse_ack_amount` of
-- rust/ds-net/src/growth.rs): Wire. Bytes are numbers in a list, and Wire.Fields has an encoder of
-- protobuf messages to compare with.
--
-- The growth probe (rust/ds-net/src/growth.rs): Growth, with its connection in Growth,
-- `run_fetch_phase` cut at its awaits and shared reads in Growth.Phase, `lambda_sample` in
-- Growth.Sample and `probe_growth` behind the handshake in Growth.Run. Growth.Room and its
-- neighbours follow the spend through all of them to the guard of the cheque. Rates in floating
-- point and the event log are left out.
--
-- The streams that peers open (`read_delimited`, `read_sink_body`, `run_pricing_sink` of
-- rust/ds-net/src/direct.rs): Sink, over Wire. A stream is the bytes that it delivers and how it
-- ends; the ten rounds of the length are all that its shift allows.
--
-- The fetch from one storer (`settlement_loop`, `emit_cheque_at_rate` and the fetch tasks of
-- `probe_storer` in rust/ds-net/src/direct.rs): Direct. The mirror of the account, of another
-- package, is the interface Accounting. Direct.Loop cuts the settlement where it awaits or reads
-- what others change, and puts its steps, the fetches and the credits into any order; no fuel is
-- needed.
--
-- The crawler (rust/ds-net/src/crawl.rs): Crawl, over Topology and Hive. Each round meets a visit:
-- the time that passed, the reports of the swarm's task, two handshakes, the gossip. The loop runs
-- on fuel, one more than the cap on dials, since every round but the last counts a dial.
--
-- Gossip (`decode_peers` of rust/ds-net/src/hive.rs): Hive. The loop over the list of addresses
-- pushes at most 20 of them, and those are its rounds; the protobuf decoder's result is an
-- argument.
--
-- Numbers are natural numbers with the wrap-around, saturation and checks of the machine words
-- written out (Base.Words), as in a release build. A hash map is an association list whose order
-- is arbitrary; a mutex makes each method one step, and a poisoned lock is not modelled. The
-- parsers' loops run on fuel, the length of the message, since every round takes a byte or more;
-- varints have ten rounds.
--
-- Not modelled: sockets, logging, cryptography and the node's HTTP interface; paths, permissions
-- and the removal of files; the fields of the report that only copy a counter; the pops of
-- `measure_lambda` among the steps of other connections; dialling and the handshake in
-- `run_connection` and `probe_storer`, with the lists of its report; and the command line.
pub mod Base
pub mod Swarm
pub mod Mirror
pub mod Wire
pub mod PeerState
pub mod Ledger
pub mod Cheque
pub mod Pacer
pub mod Dispatch
pub mod Topology
pub mod Resume
pub mod FetchFile
pub mod FetchScheduled
pub mod Hex
pub mod ChunkStore
pub mod Connection
pub mod Hive
pub mod Growth
pub mod Crawl
pub mod Direct
pub mod Sink
