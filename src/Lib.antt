-- ===== src/Lib.antt =====
-- polkadot-introspector: tools that watch a Polkadot relay chain. A collector follows the chain and
-- stores what it learns of each block in an in-memory storage, which one task owns and the others
-- reach through requests; the tools read it from there, and the parachain tracer follows one
-- parachain's candidates through backing, availability and inclusion.
--
-- * Storage models essentials/src/storage.rs: Storage/Entry has StorageEntry and its parts,
--   Storage/Schedule the index by block that pruning follows, Storage/Plain the
--   HashedPlainRecordsStorage and Storage/Prefixed the HashedPrefixedRecordsStorage, one function
--   for each method. A method on `&mut self` returns the new storage. A hash map is an association
--   list; the order in which Rust walks one is not promised, so the order here is one of those.
-- * Api models essentials/src/api/storage.rs: the requests, the two handler tasks as one step for
--   each request, and Api/Executor the methods of RequestExecutor.
-- * Channel models priority-channel/src/lib.rs over the package async_channel, a parameter with
--   the laws that its documentation states (ChannelLaws).
-- * Collector models essentials/src/collector with the events of essentials/src/chain_events.rs and
--   essentials/src/chain_subscription.rs: Types has its data, Action the shape of its methods (each
--   changes the collector and returns, fails or panics), Disputes the events of a block's disputes,
--   Broadcast update_state and the sending to subscribers, Node the calls of RequestExecutor, which
--   are a parameter, Heads and Import the import of a head, Candidates and Disputed the handlers of
--   the other events, Record the methods of CandidateRecord, and Run the loop of
--   run_with_consumer_channel over the inputs it waits for, each event with the time at which it is
--   handled. Frame has the rules by which a relation between the collector before and after every
--   change holds of every method and of the loop, and Heights and Connected apply them.
-- * Tracker models parachain-tracer/src: BlockInfo is parachain_block_info.rs, Types the data of
--   types.rs and of essentials/src, Disputes the rest of types.rs and utils.rs, Queues
--   message_queues_tracker.rs, Records tracker_storage.rs, and State, Blocks, Inclusion, Backing,
--   Inject and Progress the methods of SubxtTracker in tracker.rs. A method that may panic returns
--   an `Outcome`. Calls has the calls that `progress` makes of the statistics and the metrics.
-- * Stats models parachain-tracer/src/stats.rs: Stats/Bucket has AvgBucket, over floating point as
--   a parameter of which nothing is assumed.
-- * Kvdb models kvdb/src/decode.rs: the decoders of a key's fields and their pipeline, and in
--   Kvdb/Format the parser of formats, on bytes, and Kvdb/Keys decode_keys. The texts of byte
--   strings and the walk over a database are parameters.
-- * Decode models essentials/src/api/decode.rs: Decode/Coder has the SCALE library, a parameter
--   (Scale) whose laws Coder/Laws states, and the shapes of derived codes; Decode/Raw, Calls, Values
--   and Inherent have the raw types with their codes, the decoders of runtime calls, the storage keys
--   with the decoders of storage values, and decode_parainherent. An error is `none`.
-- * BlockTime models block-time/src/main.rs: watch_node over the events that it receives, each with
--   the reply that it gets for the block's time, populate_view, and in BlockTime/Charts the loop of
--   display_charts over what it waits for. BlockTime/Times has what the watcher sends.
-- * Whois models whois/src/main.rs: the caches of what is known of the network with the choice of a
--   session's, and in Whois/Discover the check of the session and the accounts that a command asks
--   for, as `Whois::run` finds them, in Whois/Sanity the sanity check, and in
--   Whois/Run `Whois::run` and build_cache over the replies of the executor and of the file system.
--   Peers and addresses belong to a library, a parameter (Network).
--
-- Numbers are natural numbers; where the source computes with a u32 or u16 that may wrap, the
-- remainder is written out, as in a release build. Hashes and accounts are the numbers that their
-- bytes spell. SCALE codecs, the chain's hasher, the
-- hash functions of storage keys, floating point, the capacities that VecDeque
-- chooses and async_channel are parameters. The loops are structural recursion on the lists that
-- the source walks, or on the number of slots that it counts down, but for the parser of formats: it
-- has one unit of fuel for each round, of which the length of the format is enough.
--
-- Not modelled: text output (the Display implementations), the command lines, Prometheus, the
-- clients of the network and of databases, the decoding by runtime metadata, with the comparison
-- of its events to those of the runtime calls, the collector's websocket server, the telemetry
-- feed and the Jaeger client.
mod Prelude
pub mod Storage
pub mod Api
pub mod Channel
pub mod Collector
pub mod Tracker
pub mod Stats
pub mod Kvdb
pub mod Decode
pub mod BlockTime
pub mod Whois
