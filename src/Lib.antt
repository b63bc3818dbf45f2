-- ===== src/Lib.antt =====
-- The core of the torrent engine: how a torrent is cut into pieces and chunks, which of them are
-- there, which are wanted, and which are being downloaded by which peer; the messages to the peers; and
-- the routing table and the stores of the DHT, with the encoding of its messages; and the messages to
-- UDP trackers.
--
-- The parts, and the files that model them:
--
-- * Lengths, with its child modules, models crates/librtbit-core/src/lengths.rs: the arithmetic of
--   pieces and chunks. Each method is the function of the same name, with the wrap-around of u32 and
--   u64 written out (Prelude.Words). `Lengths.Valid` has the well-formedness of a `Lengths` value,
--   the others what the methods compute from such a value.
-- * FileInfo models crates/librtbit/src/file_info.rs: the files of a torrent, and the order in which
--   the pieces of a file are taken.
-- * Bits is the interface to the bit arrays of the crate bitvec, which is not part of the repository:
--   a record of the operations that the program calls and of their documented behaviour. All of the
--   development is for any such record; Bits.Example gives one on lists of Booleans.
-- * ChunkTracker models crates/librtbit/src/chunk_tracker.rs. The record holds the same bit arrays
--   and counts as the struct, except for the storage of the bitfield, which is memory or a mapped file.
--   The free functions and the constructor are in ChunkTracker.antt, the methods in
--   ChunkTracker.Methods; a method that changes the tracker returns the new one. ChunkTracker.Valid
--   has the invariant: bit arrays of the right sizes, and byte counts that are those of the arrays.
-- * PieceTracker models crates/librtbit/src/piece_tracker.rs: the chunk tracker beside a map from the
--   pieces in flight to their peers. The map is an association list (Prelude.HashMap), whose order
--   stands for the order of iteration, which the program does not rely on.
-- * PeerHandler models crates/librtbit/src/torrent_state/live/peer_handler.rs: how the handlers of the
--   peers drive the piece tracker that they share. A function is what a handler does under one lock, or
--   under the lock of one piece; `on_piece_completed` is that of live/mod.rs. PeerHandler.System has the
--   handlers of all peers as one step relation, in which a peer acquires a piece, receives a block, ends
--   the check of a hash with a verdict or an error, completes a right piece, or dies, in any order.
--   Whether a block was asked for and written, the verdict, and whether the peer that dies was live are
--   arguments.
-- * Peers, with Peers.Table, models crates/librtbit/src/torrent_state/live/peer/mod.rs and
--   live/peers: the states of a peer, their transitions, the table and the counters of the states. A
--   method on a peer takes and returns the counters, which the program reaches through atomics.
-- * AltSpeed models crates/librtbit/src/alt_speed.rs: the alternative limits of a session, with the
--   limits of crates/librtbit/src/limits.rs that they replace, as they are set and read.
-- * DoubleBuf models crates/librtbit-peer-protocol/src/double_buf.rs: a buffer in two slices. A method
--   that advances the buffer returns the rest. DoubleBuf.Flat relates the slices to one list.
-- * Wire models crates/librtbit-peer-protocol/src/lib.rs: the messages and how they are written
--   (Wire), how they are read (Wire.Deserialize), and the handshake (Wire.Handshake). Bytes are numbers,
--   and what is written is a list beside the count that the method returns. The extended messages are
--   the parameter Extension. Bytes has the big-endian numbers of Rust's standard library.
-- * RoutingTable models crates/librtbit-dht/src/routing_table.rs, with the ids of
--   crates/librtbit-core/src/hash_id.rs as numbers: the nodes and their status (RoutingTable), the tree
--   of buckets (RoutingTable.Tree) and the table (RoutingTable.Table). The tree is the vector of its
--   nodes with indices to the children, as in the program. RoutingTable.Tree.Valid has its invariant.
-- * PeerStore models crates/librtbit-dht/src/peer_store.rs: the tokens that were given out and the peers
--   that were announced, in a map from info hashes that is an association list. An operation takes the
--   time and returns the new store. Its steps are functions of their own: `clean` is one round of the
--   first loop of `garbage_collect_peers`, and `evict_loop` the second loop.
-- * Bencode models crates/librtbit-bencode/src: the values of bencode_value.rs, how serialize.rs writes
--   them and how deserialize.rs reads them with the visitor of these values. The calls through serde are
--   composed. The decimal numbers are read by the crate atoi, which is the interface Atoi; Bencode.Decimal
--   gives a reader of that kind.
-- * MutableItems models crates/librtbit-dht/src/mutable_item_store.rs: the items by their targets, with the
--   sequence numbers as Integers.
-- * UdpTracker models the messages of crates/librtbit-tracker-comms/src/tracker_comms_udp.rs: how a
--   request is written (`serialize`) and how a response is parsed (`parse`). Addresses has the socket
--   addresses that it shares with PeerStore.
-- * Outcome is the result of a call that may return an error or panic: an index out of bounds and a
--   range that is sliced out of bounds are `panicked`. Prelude.Results is that of a parser, which may run
--   out of fuel in its model; the theorems say that it does not.
--
-- ChunkTracker calls Lengths for all its arithmetic and FileInfo for the pieces of the files;
-- PieceTracker owns the chunk tracker and calls its methods, and the handlers of PeerHandler call those of
-- PieceTracker.  Wire reads through DoubleBuf and takes the
-- chunk that it announces from Lengths.
--
-- Loops are structural recursion on the list that they walk through, or on fuel. The chunks of a piece
-- are listed on fuel, of which there is one more than the full chunks, and so one for each chunk. The way
-- down the tree of buckets and the loop that splits leaves have fuel for 161 rounds, and each round goes
-- to a node of fewer bits, of which there are 160 at most. The reader of bencode has fuel for two calls
-- for each byte and one more; the stack of the recursion in the program is not modelled. The loops over
-- a response of a tracker have fuel for one round for each byte, and the eviction of mutable items for
-- one for each item.
--
-- Not modelled: reading and writing the bitfield on disk, the streams, the clock (an argument `now`), the
-- floating-point product of durations (a parameter `scale`), the extended messages of the peer protocol
-- (a parameter), the iteration over the routing table, the serialization of the tables of the
-- DHT, the reading and writing of other types than the values of Bencode, the decimal numbers and the
-- test of UTF-8 (parameters), the client of the UDP trackers, the network tasks, messages
-- and byte counters of the handlers of the peers, the storage around the trackers, and the crates that
-- are not named above.
pub mod Prelude
pub mod Constants
pub mod Outcome
pub mod Lengths
pub mod Bits
pub mod FileInfo
pub mod ChunkTracker
pub mod PieceTracker
pub mod PeerHandler
pub mod Peers
pub mod AltSpeed
pub mod Bytes
pub mod DoubleBuf
pub mod Wire
pub mod RoutingTable
pub mod PeerStore
pub mod Addresses
pub mod Integers
pub mod MutableItems
pub mod Bencode
pub mod UdpTracker
