-- ===== src/Lib.antt =====
-- A verification of the indexer of organic-blockbook, a block explorer backend written in Go.
--
-- Blocks that the node reports go through db/sync.go to ConnectBlock of db/rocksdb.go, or in the
-- initial import to that of db/bulkconnect.go, which keeps what it changes in memory and writes it
-- in large batches. ConnectBlock parses nothing itself: it asks the coin's parser for the address
-- descriptors of the outputs, keeps for each address the transactions, the balance and the unspent
-- outputs, and writes all columns of RocksDB in one batch. When the chain is reorganised,
-- DisconnectBlockRangeBitcoinType takes blocks back. The API and the servers read the columns, the
-- mempool and the cache of transactions; the websocket server tells its subscribers of new blocks
-- and transactions.
--
-- Files and the code that they model:
--   Prelude      shared helpers: Boolean tests, lists, integers, bytes, maps that stand for Go's maps
--   Bchain       Types: bchain/types.go; Mempool: bchain/basemempool.go and
--                bchain/mempool_bitcoin_type.go; BaseParser and Amounts: bchain/baseparser.go, with
--                Hex for the texts of byte slices; PqTransaction: bchain/coins/pivx/pqtransaction.go
--   Common       InternalState: common/internalstate.go
--   Db           db/rocksdb.go: Bigint (packBigint, unpackBigint), Keys (packAddressKey, packUint), Codec
--                (packTxAddresses and what it calls), Balance (AddrBalance and its index), BalanceColumn
--                (packAddrBalance, unpackAddrBalance), Store (the columns and write batches), Connect
--                (processAddressesBitcoinType, in its two passes Outputs and Inputs), AddressColumn
--                (packTxIndexes, and GetAddrDescTransactions in Walk), BlockTxs (the data kept to
--                disconnect a block), Heights (block hashes by height), Blocks (ConnectBlock; Disconnect
--                and Range: DisconnectBlockRangeBitcoinType)
--                InternalState (the state kept in the database, the check of blockbook.go at the start,
--                computeColumnSize); Sync: db/sync.go, over an interface of the database (IndexDb,
--                which Index fills with the functions of Blocks and BulkConnect) and one of the node; BulkConnect: db/bulkconnect.go; TxCache: db/txcache.go
--   Api          Paging: api/paging.go
--   Server       InputLimits: server/input_limits.go; Websocket: the channels of server/websocket.go, their
--                subscriptions and requests, with the steps of the server as a relation (Reachability)
--   Tests        instances of the parameters, and the theorems applied to concrete data
--
-- State is passed explicitly: a database is a record of columns, each a map from keys to values; a
-- write batch is a list of operations; the maps that one block fills are a record Work. Errors are
-- values, and a Go panic is one of them. Amounts are integers; counts, heights and output numbers
-- wrap around as the machine words do where the code converts them. Reads of RocksDB do not fail,
-- and its writes fail only at the beginning and the end of a bulk connection, where the mark of the
-- database depends on them.
--
-- Parameters: go-vlq (Db.Vlq, with the laws that it documents), the protocol buffers library
-- (Protobuf, ProtobufLaws), encoding/json of the internal state (StateJson, StateJsonLaws), the
-- iterator of RocksDB, the node, the coin's parser, the script builder of btcutil, the hash
-- functions of btcd, and the reader of a request's body.
--
-- Fuel: the loops that read a packed value run on as much fuel as the value has bytes, and the
-- theorems on them show that this is enough for every value that the code stores. The
-- synchronisation has a fuel for the rounds of resyncIndex and a number of steps for the loops in a
-- round; the theorems on it say how much of both is enough. Go ranges over a map in any order:
-- where the order matters it is an argument.
--
-- Not modelled: RPC, JSON, HTTP and templates, metrics and statistics, the assembly of the API's
-- answers, and the parsers as far as they call btcutil.
pub mod Prelude
pub mod Common
pub mod Db
pub mod Bchain
pub mod Tests
pub mod Api
pub mod Server
