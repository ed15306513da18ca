-- ===== src/Lib.antt =====
-- Wendy, a fair ordering of transactions before consensus: validators vote, one sequence number
-- after the other, for the transactions they have seen, and a transaction goes into a block only
-- together with those that may have priority over it.
--
-- The parts and their files. Each part's file has its state and operations, and its folder the
-- proofs.
-- - Common: Boolean tests on native numbers, lists, Go's maps as association lists (`lookup`,
--   `insert`, `delete`), and the outcome of code that may panic or wait
--   for ever.
-- - Crypto (crypto.go): keys, their text (`Pubkey.String` is `pubkey_string`, `NewPubkeyFromID` is
--   `new_pubkey_from_id`, whose panic is `panics`), and equality of byte strings.
-- - Types (types.go, sha256.go, the `SimpleTx` of tx.go): `Vote`, `digest`, `Vote.Hash` as
--   `vote_hash`, signed votes. SHA-256 and Ed25519 are parameters: functions on byte lists.
-- - LinkedList (utils/list): a `GoList` is the list of its elements, each with an id where Go has
--   its address; `each_from` is the loop of `eachForward` and `eachBackward`, which takes the next
--   element before it calls the callback. Its fuel is one more than the number of elements.
-- - Txs (tx.go): the list and the index of `Txs`; `ByHash` is `find_by_hash`.
-- - Peer (peer.go): a `PeerBucket` per label; `bucket_add_vote`, `bucket_before` and `bucket_seen`
--   are `AddVote`, `Before` and `Seen` in the bucket of the label. A bucket that a read registers
--   is an empty one, which no later read tells from a missing one (`view-bucket`), so `before` and
--   `seen` return no new state.
-- - Blocking (`recompute` of wendy.go): the search over the matrix of blocked pairs, with fuel,
--   and the sorting of the marked positions. Fuel is one more than the number of transactions:
--   each deeper call marks a position.
-- - Wendy (wendy.go): `Wendy` and its methods; Wendy/Blocks has `BlockingSet` and
--   `NewBlockWithOptions`. A method holds its lock from start to end, so it is one step on the
--   state; a lock that the caller itself holds makes it wait for ever, the outcome `blocks`. Go's
--   maps have no order of iteration; the peers are listed in some order.
-- - Mempool (tendermint/mempool): `Mempool` and its checks; Mempool/Cache has the cache of seen
--   transactions, Mempool/Checks `CheckTx` and the callbacks of the application's answers,
--   Mempool/Updates `Update`, the recheck and `Flush`, Mempool/Reaping the two reaps, Mempool/Setup
--   the options and the log, Mempool/PeerIds the `mempoolIDs` and Mempool/Reactor the `Reactor` of
--   tendermint/mempool/reactor.go: `broadcastTxRoutine` is a state machine (`Routine`), one turn of
--   which (`broadcast_step`) runs to the next `select` on what that finds (`Round`). The list of
--   transactions is Tendermint's `clist`, an argument (`Clist`) with its documented behaviour as `Laws`
--   (Mempool/Elements); Tests/Elements has a list for which they hold. An answer of the
--   application is a call of `req_res_cb` or `global_cb` with the response. `notified` and
--   `requests` list the calls of `notify` and of the connection. The senders of a transaction are
--   kept by its element. Mempool/Reactor/Asking describes the checks of a message's transactions by
--   the keys of the cache. Loops over the list have fuel for its length and one more.
-- - VoteReactor (tendermint/wendy/reactor.go, proto/wendy): the `Reactor` with its goroutines as
--   steps (`Step`); one that waits to send on `txChan` is an entry of `waiting`, and a routine
--   between the making and the sending of a vote one of `made`. The codec is a parameter.
-- - Simulation (simulation/node.go): a `Node` with its handlers `handle_tx` and `handle_vote`, which
--   give the messages that they send. Simulation/Network has the nodes by address and the messages
--   in flight; a `Step` adds a transaction at a node or lets a node take any message in flight.
--   A run of deliveries is measured by the weight of its states. Each step is a whole handler:
--   `AddTx`, which the program runs on its caller's goroutine beside the node's `recvMsgs`, is taken
--   to be called while no handler of that node runs.
--
-- Wendy calls Txs for the pool and Peer for the votes; Peer keeps its votes in a LinkedList;
-- Wendy/Blocks calls Blocking on the matrix that the peers' answers give. Mempool/Reactor calls
-- `CheckTx` for what peers send; each node of Simulation has a Wendy of its own.
--
-- Numbers: sequence numbers are `uint64`, with `seq + 1` taken modulo 2 ^ 64; lengths and counters
-- are natural numbers. The quorum `floor(n * (2.0 / 3)) + 1` in floating point is `2 * n / 3 + 1`.
-- The time of a vote is the 64 bits of its `UnixNano`.
--
-- An `int64` of the mempool is its 64 bits; the sizes in its configuration are not negative.
--
-- A `Hash`, Go's array of 32 bytes, is the list of its bytes; what holds for every function in the
-- place of SHA-256 holds for those that give 32 bytes. No function is assumed to be injective.
--
-- A network has a node at every address; one without peers is nobody's peer and takes no part.
--
-- Not modelled: the String methods and logging, generated protobuf code, metrics and wait channels
-- (tendermint/mempool), debug output and callbacks (simulation), and the Tendermint node and its
-- program (tendermint/node is a copy of Tendermint's own set-up with another mempool).
pub mod Common
pub mod Crypto
pub mod Types
pub mod LinkedList
pub mod Txs
pub mod Peer
pub mod Blocking
pub mod Wendy
pub mod Mempool
pub mod Simulation
pub mod VoteReactor
mod Tests
