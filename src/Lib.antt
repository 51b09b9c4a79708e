-- ===== src/Lib.antt =====
-- The PHP client for Aerospike: a PHP extension in one Rust file, src/lib.rs, over the crates aerospike,
-- tokio and ext-php-rs.
--
-- A PHP script calls Client::connect, which keeps one client of the aerospike crate per set of hosts and
-- policy in a cache of the process, under a lock per key. The cache, the locks and the Tokio runtime
-- remember the process that made them, so that a forked child starts anew. Policies, statements and
-- values are PHP classes that wrap the crate's; errors of the crate become exceptions with a code.
--
-- Common        tests, lists, integers, texts as lists of code points, association lists
-- Errors        aero_error_code, AerospikeException, and in Errors/Codes ResultCode, to_string and
--               aero_result_code_to_i32
-- Cache         ClientEntry, ClientCache and evict_idle_clients (Cache/Evict)
-- Hosts         normalize_hosts, with the functions of str that it uses
-- Values        php_numeric_string_key (Values/NumericKey), with the parsing of i64; PHPValue and its
--               equality (Values/Value), aero::Value (Values/Aero), the conversions between the two
--               (Values/Store), set_zval, insert_map_entry and as_string (Values/Zval), from_zval,
--               php_array_as_map, Value::map and Value::blob (Values/FromZval); Values/Sample is PHP's
--               values and arrays as data, for the tests
-- Recordset     Recordset: next, sync_partition_filter_back, close, drop, drain_recordset, with rt_call;
--               Recordset/Behaviour says what is relied on in the crate
-- Php           the exceptions that the modelled functions throw, and results
-- Runtime       tokio_rt, take_tokio_rt, process_forked
-- Client        Client/World: the statics, the PHP objects, and a record of what was done to the clients;
--               Client/Guards: connect_guard and release_connect_guard; Client/Connect: connect and
--               close_client_entries; Client/Close: close and aerospike_php_shutdown; Client/Query: query.
--               Client/Cached, Client/Invariant, Client/Connects, Client/Connected, Client/Closes and
--               Client/Queries prove the invariant for each step; Client/Sharing, Client/Closed,
--               Client/InUse, Client/Shutdown and Client/Steps state what callers may count on
-- Ini           on_modify_long, ini_long_positive, max_cached_clients
-- Ttl           Expiration, Concurrency, read_touch_ttl_from_percent
-- Policy        opt_arg and the argument checks; the accessors of php_policy_impl! (Policy/Base) and of
--               ReadPolicy, WritePolicy, QueryPolicy, ScanPolicy and ClientPolicy (Policy/Cluster), and
--               ClientPolicy::fingerprint (Policy/Fingerprint)
-- Batch         the five classes of batch policies
-- Filter        Filter's constructors, filter_value, ctx_arg
-- ListOp        ListOp: append, insert, set and create in ListOp, the other methods in ListOp/Reads and
--               ListOp/Removals; with_ctx, cdt_create, list_return
-- Records       Bin, Key, Record, and what the wrappers of single values share
-- Statement     Statement, PartitionStatus, opt_list_arg, php_bins_to_aero_with
--
-- State is passed explicitly. A client of the crate is a number, in the order in which clients are built;
-- the reference count of a client is the number of cache entries, Client objects and Recordset objects
-- that hold it. Time, INI values where they are read within a call, and the outcomes of building the
-- runtime, of building a client and of each close() are arguments (Client.Connect.Env), so that what is
-- stated holds whatever they are.
-- HashMap is an association list with distinct keys; its iteration order is that of the list. Numbers are
-- natural numbers with the bounds of the source's integer types written out. Loops are structural
-- recursion; the decimal writing of a number uses its size as fuel, and Values/Decimal proves that this
-- suffices. The polling and the draining of a recordset run on fuel, and the theorems say how much is
-- enough; from_zval runs on fuel that bounds how deep arrays stand in each other.
--
-- A recordset is its stream, whose state holds what the reader tasks do: Recordset.Crate has a step for
-- what happens between two calls of the PHP thread, and one for what happens while it sleeps. PHP's values
-- and arrays are Values.Zval.Zend, and what is relied on in them Values.FromZval.Laws.Works.
--
-- Calls run whole, one after another: the interleavings of threads within a call, and the poisoning of
-- locks but that of a partition filter in query, are not modelled. The allocation of a PHP object is
-- taken to succeed. What the crates do is a parameter. The files of a TLS identity, the hashing of a PHPValue, batch operations, expressions,
-- operations on maps, bits and sketches, and the client's commands other than query are not modelled.
pub mod Common
pub mod Errors
pub mod Cache
pub mod Hosts
pub mod Values
pub mod Php
pub mod Runtime
pub mod Client
pub mod Ini
pub mod Ttl
pub mod Policy
pub mod Statement
pub mod Batch
pub mod Filter
pub mod ListOp
pub mod Records
pub mod Recordset
