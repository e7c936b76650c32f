-- ===== src/Lib.antt =====
-- Datarail: an end-to-end-sealed data rail and a Kafka-compatible broker.
--
-- Parts and files:
-- * Prelude models nothing: numbers, tests, lists, byte strings, dictionaries and key sets. A
--   `String` is its UTF-8 bytes, a fixed array of bytes a list of numbers, and a machine
--   integer its bit pattern, with the wrap written out.
-- * Once and its children model the admission gate of a destination, `Once` of
--   crates/datarail-once/src/lib.rs. `admit_stream` is the body of `admit` on the state of its
--   stream, `admit` looks the stream up and stores it back. The `while` loops run on fuel:
--   `drain` has a round for each parked seq, `seal` one for each number up to the highest
--   parked seq, `gc_loop` one for each seq between the two floors.
-- * Once.Persist and its children model the gate on a file,
--   crates/datarail-once/src/persist.rs: the log is a list of bytes, each write and each
--   replacement of the log has one of the outcomes of Offsets, and the checksum is the
--   parameter `crc4`. The loop that reads the log has a round for each byte of it; a record has
--   29 at least.
-- * Kafka.Txn and its children model the transaction coordinator,
--   crates/datarail-kafka/src/txn.rs: one function for each method of `TxnCoordinator`, over a
--   record of its three maps and its allocator. `Call` and `steps` are sequences of calls in
--   the order in which they take the lock. The result on fenced producers supposes that the
--   allocator of ids does not wrap round its 2 ^ 64 values.
-- * Kafka.Codec and its children model the wire codec, crates/datarail-kafka/src/codec.rs. Read
--   has the methods of `Reader`, as functions from a reader to a value and the reader it
--   leaves, or to the kind of the io error; Write has those of `Writer`; Header has the two
--   headers. `String::from_utf8` is the parameter `is_utf8`. A varint is read in at most 5 or
--   10 rounds, as in the source, and written in at most as many, since 7 bits go in each byte.
-- * Kafka.Groups and its children model the consumer-group coordinator,
--   crates/datarail-kafka/src/coordinator.rs. Groups has the state and the helpers on one
--   group, Groups.Calls the methods, Groups.Orders sequences of them. A method that waits on
--   the condition variable is cut at the waits: `join` is `join_enter` and rounds of
--   `join_poll`, `sync` is `sync_enter` and rounds of `sync_poll`. The clock is an argument of
--   a step, and need not be monotone.
-- * Kafka.Messages and its children model the messages that are built on the codec: the parsers
--   and responses of crates/datarail-kafka/src/groups.rs and of the second half of
--   crates/datarail-kafka/src/txn.rs. A loop over a count is `counted`, which bounds the count
--   as the source does and repeats a parser.
-- * Offsets and its children model the committed offsets of consumer groups,
--   crates/datarail-offsets/src/lib.rs: Mem the reference in memory, Offsets the file store.
--   The file system is what the store sees of it: the bytes of the log, whether the open handle
--   still is that file, and the outcome of each write (`Append`) and of each replacement of the
--   log (`Replace`). `restart` is `open` where its calls of the file system succeed. The loop
--   of `replay` has a round for each byte of the file; a record has 16.
-- * Blobstore and its children model crates/datarail-blobstore/src/lib.rs: the names of keys,
--   the reference in memory, and the file store over a directory that maps names to contents,
--   in which each step of a `put` can fail. `decode_bytes` is the loop of `decode_key`, with a
--   round for each byte.
-- * Broker and its children model crates/datarail-broker/src/lib.rs. Broker, Wire and Messages
--   are the frames, the requests and the responses; Stream is the frames on a stream; Serve is
--   the loop of a connection over any handler, with a bound on its rounds; Server is
--   `Server::handle` over a topic (`TopicOps`) and an offset store (`StoreOps`), which are
--   given by their operations. Stores has the file store of Offsets as such a store, Topics the
--   topic of Topic as such a topic.
-- * Topic and its children model crates/datarail-topic/src/lib.rs: producing, dispatching and
--   the groups, over a replay log (`LogOps`) that is given by its operations. Topic.Retained
--   has the log of Replaylog as such a log. `dispatch_next` goes through `on_reader`,
--   `on_read`, `on_split` and `on_route`, one for each early return.
-- * Replaylog and its children model the segmented log, crates/datarail-replaylog/src/lib.rs. A
--   directory maps the start of a segment to the bytes of its file; the handle of the active
--   segment is a file and a position in it, so that what a failed `append`, `rotate` or
--   `truncate_to` leaves behind can be told. Open has `open`, `truncate_to` and the loops over
--   the frames of a file, with a round for each byte; Reader has `Replay`, whose `refill_loop`
--   has a round for each segment and one more. `round` is the body of the loop of `read_next`;
--   it ends within one round more than the log has bytes. Offsets wrap as the u64 values that
--   they are. How many bytes a file gives is the parameter `read_len`, of which a read fills
--   the slice of REFILL_CHUNK bytes at most (`filled`), and a read of an open file does not
--   fail; `sync` changes nothing of the state.
-- * Keyrouter and its children model rendezvous routing, crates/datarail-keyrouter/src/lib.rs:
--   `best_of` is the loop of `route_keyhash`, and `improve` its body.
--
-- Interaction: a Kafka request is framed and parsed by the codec and dispatched to the
-- coordinators, the transaction coordinator for transactional producers and the group
-- coordinator for consumers; each of them holds its own lock, so a call of one is a step that
-- no call of it interrupts. The native broker reads a request from a frame, hands it to its
-- server, which calls the topic, the groups and the offset store, and frames the answer; the
-- committed offsets are in the log of Offsets. The admission gate stands at the other end of
-- the rail, in front of the sink.
--
-- Not modelled: the cryptographic crates (the seals and signatures are third-party primitives),
-- the sockets, threads and files of the substrates, failures of the files below a topic, the
-- command line, and the dispatch of the Kafka server. Wrap-around is that of a release build.
pub mod Prelude
pub mod Once
pub mod Kafka
pub mod Keyrouter
pub mod Offsets
pub mod Blobstore
pub mod Broker
pub mod Topic
pub mod Replaylog
