-- ===== src/Lib.antt =====
-- RediGo, a Redis server in Go: its protocol, its data structures and its commands.
--
-- A request arrives as bytes; `ParseCmd` decodes it (RESP) and splits it into a name and arguments,
-- and an executor runs the command on the stores. There are two executors: the one of
-- internal/core/executor.go works on stores that are variables of the package, and a worker
-- (internal/core/worker.go) has a dictionary of its own and knows SET, GET and PING only. The server
-- (internal/server/server.go) hands each command to the worker that a hash of its key selects. The
-- active expiry (internal/core/expire.go) deletes expired keys of the first executor's dictionary.
--
--   Go              what the model uses of Go: results with panics, slices, maps, decimal numbers, text
--   Resp            internal/core/resp.go and command.go: Decode, Encode, ParseCmd; the integer reader of
--                   cmd/test/main.go
--   HashTable       internal/data_structure/hash_table: the dictionary, expiry, eviction
--   SimpleSet       internal/data_structure/simple_set
--   Probabilistic   internal/data_structure/probabilistic: the count-min sketch and the Bloom filter
--   SortedSet       internal/data_structure/sorted_set/sorted_set.go, over an ordered index;
--                   BTree is the B+ tree of btree_index.go, SkipList the skip
--                   list of skiplist_index.go, Item is item.go
--   Core            internal/core: the commands, storage.go, the two executors, expire.go
--   Core.Iomux      internal/core/iomux: events and the loop of `Wait`, for epoll and kqueue
--   Server          internal/server/server.go: the partition of the keys among the workers. ReadCommand and
--                   EventLoop are the rest of that file, IoHandler is io_handler.go, Listener is
--                   single_listener_server.go and multi_listeners_server.go; Concurrent has the
--                   goroutines of these and of internal/core/worker.go side by side
--   Settings        internal/config/config.go
--   Stats           utils/system.go
--   Gateway         cmd/gateway/main.go: a command from an HTTP request to the server and back
--   ThreadPool      ThreadPool/main.go
--   Tests           the definitions and the theorems on concrete inputs
--
-- A function of the source has its name here in the spelling of this language (`cmdSET` is `cmd_set`,
-- `readInt64` is `read_int64`); a switch or the body of a loop has a helper of its own, and a method
-- takes its receiver as an argument and returns the new one. `Resp.Value` holds the values that the
-- code passes as `interface{}`.
--
-- Arguments of the model that stand for what the source does not fix: the readings of the clock
-- (`ms` and `secs`, and `ms0`, `ms1`, `ms2` of a command in their order), the order in which a
-- range visits a map (`order`, `visits`), `sort.Sort`, `rand.Intn`, the hash murmur3 of a sketch or
-- filter, upper case beyond ASCII, the floating point numbers, and the configuration, whose
-- `evict_count` is the number that the code computes from `EvictionRatio` and `MaxKeyNumber`. They
-- are arbitrary, and a theorem names what it asks of them.
--
-- Words of 64 bits wrap around as written (`% word_mod`). A panic is a result of its own.
-- `DecodeOne` calls itself on a slice that is shorter by at least a byte, so its fuel is one more
-- than the length of the slice; `hang` is the result when the fuel is used up. The active expiry
-- has fuel for its rounds; one more than the number of keys with an expiry time is enough. `make`
-- of an array panics above `max_slots` elements and `make` of counters or of the words of a filter
-- above `max_counters`, where the Go runtime refuses.
--
-- The B+ tree lives in two stores, of nodes and of items, and a pointer is a position in its store, so
-- that an item is shared by a leaf and the separators above it as in the source. A node that a merge
-- drops stays in the store. The loops down the tree and along the leaves, the chain of splits
-- (`splitNode`) and the chain of merges (`handleUnderflow`) have fuel; what is enough for the walks is
-- the record `Enough`, and for `Add` one more than the height of the tree. `Indexed` is the invariant of
-- the tree and of the chain of its leaves, `WellFormed` its part on parents and children.
--
-- The sorted set takes its index as an argument: `OrderedIndex` lists the operations that it calls, which may
-- panic, and `Indexes` gives the B+ tree as such an index, with fuel for each call. `Factory` is
-- ordered_index_factory.go.
--
-- The skip list has a store of nodes too. How often `Intn(2)` draws 1 for the level of a new node is an
-- argument, a `uint32` wraps around, and the loops along one level have fuel, for which the number of the
-- nodes and one more is meant.
--
-- `Concurrent` and `EventLoop` are step relations, and a run (`Steps`) is any interleaving of their steps. In
-- `Concurrent` a worker runs one command in one step and a handler has one request at a time; the
-- channel of a worker holds at most 1024 tasks. In `EventLoop` a step lies between two accesses to
-- `serverStatus`, which the goroutine of the signal may write in between. What the operating system gives is a
-- choice of the step there, and an argument in `IoHandler`, `Listener` and `Iomux`: the results of `Accept`, `Wait`,
-- the reads and the writes.
--
-- Not modelled: the set-up of sockets, logging, the locks, data races (two workers on the shared eviction
-- pool, two listeners on `nextIOHandler`), the start of the program and of the gateway, the demonstration
-- TcpServer, and the vendored libraries.
pub mod Prelude
pub mod Go
pub mod Resp
pub mod HashTable
pub mod SimpleSet
pub mod Probabilistic
pub mod SortedSet
pub mod Core
pub mod Server
pub mod Settings
pub mod Stats
pub mod Gateway
pub mod ThreadPool
pub mod Tests
