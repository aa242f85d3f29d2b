-- ===== src/Lib.antt =====
-- A verification library for IKPIR, keyword private information retrieval over a cuckoo-hashed
-- key-value store.
--
-- The program. A server keeps key-value pairs in a `CuckooKVStore` of the crate segmented-cuckoo:
-- a key is hashed to a fingerprint and to two, three or four candidate buckets, and a slot of one
-- of them holds `fingerprint ‖ value`, bit-packed over cells of `plaintext_bits` bits. The cells of
-- a segment are a matrix that a PIR back end multiplies; a client asks it for one row of each
-- segment. When the server changes the store, it publishes the differences of the cells, epoch by
-- epoch: a client either patches its hint with them at once, or keeps them pending and rewinds the
-- server's answers. The library models the store, the FrodoPIR back end with its kernel and its
-- patches, the server, and the epochs and states of both clients.
--
-- Which file models what, with paths from the repository's root:
--   Cuckoo/Hash.antt        crates/segmented-cuckoo/src/hash.rs: `extract_fingerprint`,
--                           `hash_and_i1`, `fingerprint_hash1..3`, `xor3`, `xor4`
--   Cuckoo/Scheme.antt      crates/segmented-cuckoo/src/scheme.rs with the `hash_item_*` and
--                           `all_indices_*` of hash.rs: the trait as a record of operations
--   Cuckoo/CellStream.antt  `slot_read_bits`, `slot_write_bits` of store.rs, which are `read_bits`,
--                           `write_bits` of fingerprint_value_table.rs on a table's own cells;
--                           the loops of `write_value`, `read_value`
--   Cuckoo/Table.antt       crates/segmented-cuckoo/src/fingerprint_value_table.rs: the struct as a
--                           record, an operation `&mut self` returns the new record
--   Cuckoo/Store.antt       crates/segmented-cuckoo/src/store.rs: the struct, the packing of bytes,
--                           the mutation log; Store/Insert.antt has `insert` with its kick loop and
--                           rollback, Store/Access.antt `contain`, `delete`, `update`,
--                           Store/Build.antt `CuckooParams` and the constructors,
--                           Store/Payload.antt `pack_slot_cells`, Store/Unpack.antt
--                           `unpack_slot_cells`; Store/History.antt says what the log of a call
--                           is a true account of
--   Cuckoo/Capacity.antt    crates/segmented-cuckoo/src/util.rs: the powers of 3 and of 4
--   Backend/Matvec.antt     crates/ikpir-common/src/backend/matvec.rs: `matvec_accumulate` and the
--                           passes over blocks of rows
--   Backend/Patch.antt      crates/ikpir-common/src/backend/patch.rs: `TouchedRuns`
--   Backend/Interface.antt  the traits of crates/ikpir-common/src/backend/mod.rs, as a record of
--                           operations, and what a client relies on, as a record of laws
--   Backend/Frodo.antt      crates/ikpir-common/src/backend/frodo: arith.rs, params.rs, and the
--                           hint, query, answer and decoding of backend.rs; Frodo/Patch.antt has the
--                           two modes of the hint patch and `rewind_response`, Frodo/Setup.antt the
--                           setup with `sample_a`, and the back end as an implementation of the
--                           interface; Frodo/Promise.antt fills the laws that the server uses
--   Server.antt             crates/ikpir-server/src/server.rs, with `IkpirError` of
--                           crates/ikpir-common/src/error.rs; Server/Fold has the laws of
--                           `fold_mutations_into_row_deltas` of ikpir-server's hint_patch.rs,
--                           Server/Commit and Server/Served those of the three calls, Server/Run
--                           and Server/Trace those of a server with a client that follows it
--   Client/Pending.antt     crates/ikpir-client/src/pending.rs over TreeMap.antt, a sorted
--                           association list for the `BTreeMap` of the standard library
--   Client/Bundles.antt     the bundles of crates/ikpir-common/src/wire.rs, and error.rs and
--                           outcome.rs of crates/ikpir-client/src
--   Client/Rewind.antt      crates/ikpir-client/src/client_rewind.rs
--   Client/HintPatch.antt   crates/ikpir-client/src/client_hint_patch.rs
--   Client/ConstantTime.antt crates/ikpir-client/src/ct.rs
--   Cuckoo/Tests.antt, Cuckoo/StreamTests.antt, Cuckoo/CapacityTests.antt, Cuckoo/HistoryTests.antt,
--   Cuckoo/PackTests.antt, Backend/Tests.antt, Client/Tests.antt, Client/RunTests.antt,
--   Client/PatchTests.antt, Server/Tests.antt   the theorems at concrete values, over the data of
--                           Cuckoo/Sample.antt
--   Prelude.antt, Bits.antt shared names, sums and integers; the laws of masks, shifts and fields
--
-- How the state corresponds. Integers are natural numbers; a `u32` or `u64` operation that can wrap
-- has its remainder written out. A panic (an assertion, `unreachable!`) is `none`,
-- but for an index of the bit streams past their cells, which reads 0 here: the laws of the streams keep
-- every read within the cells. The abstract view
-- of a table is one number, the bits of its cells in order, of which a slot is a field.
--
-- A buffer of `u32` words is a flat row-major list, and the law of a loop that adds to its cells
-- says what it adds to each, modulo 2^32. The clients take the back end as a parameter. A set of
-- deltas is within a segment when its rows and offsets are. The server takes the store's operations,
-- the back end and the seeds that it draws as arguments; the `i64` sums of its fold are exact integers,
-- whose partial sums over a true log are differences of two cells.
--
-- Bounds and fuel. A `while` loop that reads bits takes as fuel the number of bits to read, and each
-- round reads at least one. Counted loops recur on the rounds left. The kick loop recurs on
-- `max_kicks`. The roundings to a power take 64 rounds, which are enough for any `u64` power of 3 or
-- 4, and the test for a power of 3 as many rounds as the number. The draws of the random generator
-- are a function from the number of the draw and its bound.
--
-- Not modelled: the digest xxh3_128, the generator and the ChaCha20 stream, which are third-party
-- and parameters here; the ternary sampler, so a secret and a noise are arguments; the parallel
-- drivers, which schedule the same kernels; the floating-point load factors and noise estimates;
-- the SimplePIR back end, the encoding of the wire format, the cuckoo filter, and the
-- queries and the scans of decoded rows of the clients.
pub mod Prelude
pub mod Bits
pub mod Backend
pub mod Client
pub mod Cuckoo
pub mod Server
pub mod TreeMap
