-- ===== src/Lib.antt =====
-- WolfScale: a cluster of MariaDB nodes that replicate each other through a write-ahead log.
--
-- A node appends every write to its log, and a leader sends the entries to the followers, which
-- execute them on their own database. The nodes find each other and watch each other by heartbeats;
-- the node with the lowest id leads. WolfDisk, a distributed file system, and WolfNet, a private
-- network, are programs of their own. Paths below are from the repository's root.
--
-- Error                  src/error.rs: the errors, and computations that fail and change a state.
-- State.Membership       src/state/membership.rs: the nodes as one node sees them. The functions
--                        have the source's names; the loop of `check_timeouts` is `sweep`, one round
--                        of it `time_out`, and `record_heartbeat` does `heard` to the node it finds.
--   Valid, Run           the invariant of the map, for each operation and for all histories.
--   Timeouts, Dropped    who is reported, dropped and removed, and who comes back.
--   Leader, Counts       who leads; quorums.
-- State.Tracker          src/state/tracker.rs: the SQLite tables of a node, as lists of rows.
--   Cells, Watermarks    the single values, and the watermarks of the tables.
-- State.Election         src/state/election.rs: the coordinator, which holds the cluster and the
--                        tracker. Events on it are `Event` of Votes.
--   Votes, Lowest        terms and votes; the rule of the lowest id.
-- Wal.Entry              src/wal/entry.rs: the entries of the log; Print is their SQL.
--   Print.Literals       text literals against a reader that follows src/executor/mariadb.rs.
--   Print.Statements     how many statements an entry gives.
-- Wal.Segment            src/wal/segment.rs: one file of the log, as the list of its bytes.
--   RoundTrip, Appends   what is written is what is read, over appends.
--   Iterates, Seals      the iterator; what sealing leaves.
-- Wal.Writer             src/wal/writer.rs: the task that numbers, buffers and writes the entries,
--                        turn by turn (`turn`); the directory is a list of files by number.
--   Numbers, Answers     the LSNs, and the answers on the channels.
--   Files, Durable       what can be read from the directory after a flush.
-- Wal.Reader             src/wal/reader.rs: the log by LSN, on the writer's directory.
--   Batches, Reads       batches against `read_from`, and this against the entries of the files.
--   Streams              the iterator of `stream_from`.
-- Replication.Protocol   src/replication/protocol.rs: the messages; Frame is the header of a frame.
-- Network                src/network/mod.rs, server.rs: framed messages on a connection, with bincode
--   Streams              a parameter; a whole conversation.
-- Replication.Follower   src/replication/follower.rs: the follower, with the database a parameter.
--   Apply, Batch         what it executes, against the reference `replay`.
-- Replication.Leader     src/replication/leader.rs: the leader, with the log an interface, `Log`.
--   Sorting, Commit      the commit LSN and the acknowledged writes.
--   Sends, Votes         whom it sends to and yields to; how it answers vote requests.
-- Id                     src/id.rs: Snowflake ids, and the rounds of their generator (`round`).
--   Layout, Unique       the bits of an id; the ids of all threads.
-- Router                 src/lb.rs: the load balancer, on the membership; Reads is where reads go.
-- Proxy.Protocol         src/proxy/protocol.rs: MySQL packets; RoundTrip reads what was written.
-- Wolfnet.Cipher         wolfnet/src/crypto.rs: the session cipher, with the AEAD a parameter.
--   Nonces, Session      its nonces, and the packets of a session.
-- Wolfnet.Peers           wolfnet/src/peer.rs: the peers of a node; Learning is what it learns of them.
--   Kept                 what discovery and peer exchange do to the peers that are known.
-- Wolfdisk.Cache         wolfdisk/src/storage/chunks.rs: `ReadCache`.
-- Wolfdisk.Chunks        wolfdisk/src/storage/chunks.rs: the chunks of files; SHA-256 is a parameter.
--   Store, Pieces        the cache against the files; what `write` stores.
--   Order, Ranges        the sorted references; those that a read depends on.
--   RoundTrip            reading what was written.
-- Wolfdisk.Cluster       wolfdisk/src/cluster/state.rs: the change log and the election.
--   Changes, Election    deltas; who leads.
-- Wolfdisk.Inodes        wolfdisk/src/storage/inode.rs: the inode table; Agreement is that of its maps.
-- Wolfdisk.Index          wolfdisk/src/storage/index.rs: the entries of files by path; Paths has the paths.
-- Wolfdisk.Filesystem     wolfdisk/src/fuse/filesystem.rs: the state of the mounted file system.
--   Entries, Removal     the calls that make and find entries; those that remove and rename.
--   Attributes           the call that changes attributes and sizes.
--   Buffers, Clients     the leader's write buffers and reads; a follower's write-back cache.
--   Listing, Reads       directories; reads on any node.
--   Syncs                flush and fsync.
--   Segments, Drains     what a follower's drain sends, against what was written.
--   Sound, Valid, Written, Runs   the index against the inode table, over the leader's calls.
--   Lookups, Losses      what a lookup finds after create; what rename and unlink leave.
-- Wolfdisk.Replicas       wolfdisk/src/main.rs: what a follower does with what its leader sends.
--   Tables               its index against its inode table.
--   Mirror, Followers    its index against the leader's.
-- Wolfdisk.Errors         wolfdisk/src/error.rs: the errors and their codes.
-- Wolfdisk.Requests       wolfdisk/src/main.rs: what a leader does with what other nodes ask of it.
--   Valid                its index against its inode table, over any requests.
--   Syncs                synchronisation, chunks and attributes for other nodes.
--   Writes, Panics       a write followed by a read; a write over a file in several chunks.
-- Base                   the shared names: Boolean tests, lists, little-endian bytes, text, and
--                        association lists and sorted lists for maps.
--
-- The follower and the election coordinator share one cluster and one tracker in the source, by
-- `Arc`; here the follower holds the coordinator and the coordinator the two. A vote request reaches
-- the coordinator, an append request the follower, and a follower's answer the leader.
--
-- Numbers are natural numbers. Times are milliseconds, and the clock's value is an argument. `u64`
-- counters (terms, LSNs) are taken not to reach 2 ^ 64; where SQLite stores them as `i64`, the
-- comparison of the wrapped numbers is written out. A map is an association list, so the order of
-- `HashMap` is that of the list. These loops run on fuel: the
-- iterator over a segment, where the bytes of the file are enough, the handler of a connection,
-- where those of the stream are, and the loops of WolfDisk that cut what is written into chunks
-- (`store_pieces`, `messages_of`, `flush_full`), where the bytes to write are, unless the chunk size
-- is 0, with which the source never ends. Every other loop is over a list. Where a result depends on it, a `u64` wraps
-- (`u64`, `u32`).
--
-- The acknowledgements that a task of its own sends while a follower executes a batch come where an
-- argument says that its timer fires. `start` of Wolfdisk.Filesystem is `with_cluster` on an index,
-- with the tables that wolfdisk/src/main.rs makes of it.
--
-- Not modelled: serialisation by bincode, compression, checksums, SHA-256 and the AEAD (parameters
-- where a definition needs them), sockets, errors of the disk, the HTTP interface, the server of the
-- MySQL proxy, the binlog client, the configuration, WolfDisk's S3 server and WolfNet's
-- tunnel. Methods are taken one at a time: what another task does at an `.await` inside a method is
-- not modelled, and neither are the endless loops of `start`.
pub mod Base
pub mod State
pub mod Error
pub mod Id
pub mod Wal
pub mod Router
pub mod Replication
pub mod Network
pub mod Wolfnet
pub mod Proxy
pub mod Wolfdisk
