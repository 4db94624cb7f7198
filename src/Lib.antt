-- ===== src/Lib.antt =====
-- GODcoin: a block chain whose minters stake bonds, its node and its wallet.
--
-- The program. `src/lib/blockchain` keeps the chain: `ChainStore` appends blocks to a log file, each framed
-- by its length and a checksum, and `Blockchain` validates transactions and blocks and calculates fees
-- and balances. `src/lib/indexer` keeps in a database what the chain's blocks amount to: positions of blocks
-- in the log, balances, bonds, the supply and the transactions seen lately; `BlockIndexer` gathers the
-- changes of a block in a `BatchIndex` and flushes them. `src/lib/producer` keeps the transactions that are
-- not in a block (`TxPool`) and says whose turn it is (`Scheduler`). `src/lib/net` carries calls and events
-- between two peers, and `src/lib/node` asks peers for blocks. `src/cli/wallet` reads commands, keeps keys
-- under a password and asks a node to broadcast. Methods that the code runs under a `Lock` are modelled
-- as running alone; the lock itself is a model of its own.
--
-- The files.
--   Prelude      shared types, tests on numbers, integers, dictionaries, and `Result`, the value of
--                code that may throw: the errors are the messages of the source
--   Exec         an asynchronous method under a lock: a step on the state with a result; what was
--                written before a throw stays written
--   Neon         the package godcoin-neon, by the operations that the source calls, and its laws
--   Packages     level, level-codec, long, crc32 and JSON, by the operations that the source calls
--   Buffers      the numbers that the source writes to a Node buffer
--   Assets       src/lib/asset.ts and src/lib/constants.ts
--   Indexer      src/lib/indexer: `Index` is the database with its timers, Batch and BlockIndexer the
--                classes of these names; Maps, Writes, Refinement and Batched relate the
--                database and a batch to six maps
--   ChainStore   src/lib/blockchain/chain_store.ts: the file is a list of bytes; Cache is `BlockCache`;
--                `IsLog` of ChainStore/Log says which blocks a file holds
--   Blockchain   src/lib/blockchain/blockchain.ts and src/lib/skip_flags.ts: Chain has the state, Fees,
--                Balances, Transactions and Blocks the methods, Folders the constructor, Start the start
--                with its reindexing; Valid, Extends and Agreement have what an added block meets, what it
--                changes, and how balances and the index agree, Reloaded what `reload` leaves alone
--   Lock         src/lib/lock.ts; Fairness has the histories of calls
--   Producer     src/lib/producer: TxPool, Scheduler, and in Minting `Producer` and `LocalMinter`
--   Node         src/lib/node/client_peer_pool.ts, `getBlockRange` of src/lib/net/peer.ts, and
--                src/lib/node/synchronizer.ts; Running has `start` and `stop` of src/lib/node/index.ts,
--                Started what they call when a part throws, Listeners its listeners on the peer pool,
--                Server src/lib/node/server.ts. Linked, Synced and Rewound have what a
--                synchronization does to the log and the head, Connected what the node asks of its
--                parts while its clients come and go
--   Net          src/lib/net: Payload has the messages, Calls and Peer the state of src/lib/net/peer.ts,
--                Messages `onMessage` and `processMessage`, Steps what can happen to a peer; Client is
--                `ClientNet` of src/lib/net/client_peer/net.ts, Socket `Net` of src/lib/net/net.ts, and
--                Handshake `ServerNet` of src/lib/net/server_peer/net.ts. Kept, Answers, Closing,
--                Abandoned, Exchange, Holding, Exclusive, Unconnected, Portless, Codec, Decoding,
--                Stream, Verdict, Heard and Greeted have the proofs
--   Wallet       src/cli/wallet: Parser is `Wallet.parse`, Db the encrypted store of db.ts, Commands and
--                Payments the commands of cmd, Search `findTx` of util.ts, Lines `processLine`
--   CommandLine  src/cli/index.ts, src/lib/env.ts and `hookSigInt` of src/lib/node-util.ts
--   Tests        a concrete instance of the packages, and evaluations
--
-- State and operations. A class is a record of its fields and a method a function of the same name in
-- snake case that gives the new state. `undefined` is `none`; a call of a method on `undefined` is the
-- error `type_error`. The clock is an argument for each reading. A timer is an entry of a list, with the
-- function that runs its body. Numbers that the source keeps in doubles are natural numbers or integers;
-- the 32-bit words of the file formats are written out modulo 2 ^ 32.
--
-- Loops are structural recursion on lists or on the number of rounds that are left, which the source
-- knows before the loop; the loop over the bytes of the log recurses on a number of rounds that is the
-- length of the file, and each round passes at least one byte. The synchronizer's loop has no bound in
-- the source: it runs on a script of rounds, and a script that ends before the loop gives false. The
-- search of the wallet for a transaction runs on rounds too: as long as the clock moves on from round to
-- round, as many rounds as there are milliseconds left, and one more, are enough.
--
-- What happens between two peers is a list of steps, each one event of Node's loop: a call, a message, a
-- failed write, an opening or a closing of the socket, or the next function that `setImmediate` was
-- given. The promises of a peer are data: which are open, and what each settled one gave.
--
-- The loop over the messages of a piece of data runs on rounds as well: the codec is a package, and by what
-- is asked of it (CodecLaws of Net/Codec) more rounds than there are bytes are enough.
--
-- A handler of a connection runs to its end before the next event, with what follows it by promises. The
-- listeners of the node on the peer pool await none of their calls; they note which ones they make.
--
-- Not modelled: Node's sockets beyond the events that they report, the inside of the message codec, the
-- terminal, files other than the block log, and the code of the packages, among them the parsing of the
-- arguments by yargs; the commands of the wallet that only print what a call gives; what bench
-- measures; listeners of a message that throw and end the loop over the messages of a piece of data;
-- writes to the block log before it is opened, and reads of a buffer beyond its end; and two methods of one object that run at once without a lock, except for the calls of a peer
-- and the connection of a client.
pub mod Prelude
pub mod Exec
pub mod Neon
pub mod Buffers
pub mod Packages
pub mod Indexer
pub mod Assets
pub mod ChainStore
pub mod Blockchain
pub mod Lock
pub mod Producer
pub mod Net
pub mod Node
pub mod Wallet
pub mod CommandLine
pub mod Tests
