-- ===== src/Lib.antt =====
-- Combee keeps many small SQLite databases, called Cells. An API server authenticates requests,
-- looks Cells up in a catalogue, counts credits, and sends each operation to the data node that
-- holds the Cell. A data node keeps a bounded number of connections open, serves key-value
-- operations and SQL on them, and answers reads from a cache that all its Cells share.
--
-- Kv models crates/data-node/src/kv.rs, one function for each operation of the file under its
-- name, and Ttl models ttl.rs beside it. A connection is a parameter (Sqlite): its content is a
-- table from keys to rows, and its statements are those of kv.rs, each of which either does what
-- its SQL says or fails and changes nothing; Sqlite.Ideal shows that the laws can be met. Every
-- reading of the clock is an argument: the n-th reading of a loop is the clock at n. Text holds
-- what the code uses of Rust's texts: UTF-8 and the printing and parsing of i64 over lists of
-- bytes; twenty digits are enough for a 64-bit number.
--
-- Cache models crates/data-node/src/cache.rs over a parameter for the moka cache, which may forget
-- any entry at any operation. Manager models manager.rs: which Cells have a connection, eviction,
-- idle closing and the read-only mark; a Cell keeps its content while it is closed, and the
-- results of opening it are inputs. Quota holds the limits of crates/common/src/config.rs and
-- their checks.
--
-- Node models the KV operations of crates/data-node/src/lib.rs: the guards, the lookup in the
-- cache and the job under the lock of the Cell, in the order of the source. An operation is one
-- step, because the lock of its Cell is held while the job runs; the lookup in the cache that
-- precedes the lock is part of that step, so an interleaving of another call between the two is
-- not modelled. A deletion and a reset are one step each as well, although the source gives the
-- lock back before it is done with the cache and the files. Calls is the list of calls a node
-- serves; a failed deletion of files, which may leave any part of a Cell, is not one of them, and
-- neither are statements of SQL and transactions.
--
-- Catalog models the operations on Cells of the in-memory store in crates/metadata/src/store.rs,
-- and Ledger its accounts, transactions, vouchers and prices with the types of
-- crates/common/src/credit.rs. Maps are functions, except the ledger, which is a list because it
-- is summed. Identifiers that the source draws at random and the text of a UUID are arguments.
--
-- Sql models the scanners of crates/data-node/src/sql.rs over the bytes of a statement. An index
-- into the text is the rest of the text from there. The loops run on fuel, one unit for each byte
-- and one more; Sql.Fuel is the reason why that is enough: each round consumes a byte.
--
-- Api, Usage and Settlement model the API server. Api holds what its parts share, the context of a
-- request and the path that names a Cell; Api.Auth the layers of crates/api-server/src/auth.rs and
-- rpc_auth of crates/data-node/src/server.rs as decisions over the headers; Api.Quotas the
-- counters and middlewares of quota.rs; Api.Nodes and Api.Placement the registry of data nodes in
-- nodes.rs, whose store, when it has one, is that of Access. Api.Routing the provider in client.rs
-- that finds the node of a Cell, whose questions to the registry and the catalogue have any
-- answers, Api.Failover failover.rs over the catalogue, these routes and the nodes, and
-- Api.Handlers the handlers of handlers/kv.rs and handlers/database.rs that write to or reset a
-- Cell, for a server with one node. Usage models usage.rs beside them with
-- crates/common/src/usage.rs: the meter writes to a store through an interface (UsageStore) with a
-- contract (IsExact), which the buckets of the in-memory store, in Usage.Store, fulfil. Requests
-- and flushes of several threads are a list of events in any order, in which each event is one
-- step because the mutex of the counters is held for it. Settlement models settlement.rs over an
-- interface (Billing) to the store that the ledger and the buckets fill, and Ledger.Reload the
-- manager of prices in pricing.rs. The loops of a flush and of a settlement run over lists and
-- need no fuel.
--
-- Sql.Check is check_statement, with the whitespace and the lower case of Rust's texts over bytes.
-- Sql.Execute models the rest of sql.rs over a parameter for SQLite (Engine) and one for what the
-- libraries do with floating-point numbers, texts and JSON (Libraries); the contract of
-- transactions, IsTransactional, takes it that the sandbox keeps users from beginning or ending
-- one.
--
-- Postgres models the operations on Cells, accounts, transactions, vouchers, tenants, API keys,
-- data nodes and leases of crates/metadata/src/postgres.rs. A table is the list of its rows, on
-- which Postgres.Rows has SELECT, UPDATE and DELETE; primary keys, unique indexes and the range of
-- a bigint are the conditions under which a statement fails. A transaction of the database is one
-- step, and a booking looks for its reference in an earlier state than the one it writes to. The
-- order of rows is not meant, and connections do not fail.
--
-- Rpc models the trait DataNodeClient of crates/api-server/src/client.rs as a record of its
-- methods on Cells, with the client in the process and the remote one, the handlers of
-- crates/data-node/src/server.rs (Rpc.Server) and the response of crates/common/src/rpc.rs. A call
-- finds its link working, loses its answer, or does not get through. The JSON of a request or an
-- answer is read as it was printed, except that a fraction goes through a function that is a
-- parameter. Node.Queries is the SQL of crates/data-node/src/lib.rs around Sql.Execute, without
-- the timeout of a query.
--
-- Api.Names and Api.Directory model the creation, ensuring, renaming and deletion of Cells in
-- crates/api-server/src/handlers/database.rs with the idempotency keys of the PostgreSQL store,
-- and Api.Migration the migration of a Cell in handlers/admin.rs over the same table and
-- Api.Routing. How a node answers is an argument there. A call of a client that breaks off in a
-- migration runs the client's hook.
--
-- Access models the tenants, API keys, data nodes and leases of the same store as Catalog. Errors
-- models crates/common/src/errors.rs without the texts of messages, and Sandbox the rules of
-- crates/data-node/src/sandbox.rs, without the callback that SQLite calls. Prelude holds the names
-- all modules share and the integers; Exec is the state and the error that the operations pass on.
-- Integers of 64 bits wrap round where the source's release build does; panics of a debug build
-- are not modelled.
--
-- Backup models the rounds of the incremental backup in crates/data-node/src/backup.rs over a
-- parameter for the object store (ObjectStore with the contract Backup.Rounds.IsFaithful, which
-- Backup.Ideal fulfils). The name of an object is kept by its parts, so the text of a name and its
-- parsing are not modelled; how an operation on files ends is an argument.
--
-- Not modelled: SCAN, replication, the scanner that starts failovers, the backups, replicas and
-- vacuum of the remote client, the remaining HTTP handlers, the usage, prices and configuration of
-- the PostgreSQL store (the store in memory has the first two), the sampler of storage, and the
-- files of a Cell: they are SQL for a server, glue, or work on files and the network. Background
-- tasks repeat the operations that are modelled.
pub mod Prelude
pub mod Errors
pub mod Exec
pub mod Text
pub mod Ttl
pub mod Sql
pub mod Sqlite
pub mod Kv
pub mod Cache
pub mod Manager
pub mod Quota
pub mod Node
pub mod Ledger
pub mod Catalog
pub mod Access
pub mod Sandbox
pub mod Tests
pub mod Usage
pub mod Api
pub mod Settlement
pub mod Backup
pub mod Postgres
pub mod Rpc
