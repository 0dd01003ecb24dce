-- ===== src/Lib.antt =====
-- kvcache: a key-value cache that packs objects into slabs in memory and writes full slabs to an SSD.
--
-- The program. An object lies in a slot of a slab, and every slab has slots of one size, that of its
-- slab class. A slab is in memory (an mslab) or one block of the SSD with a header in memory (a
-- dslab). The index is a chained hash table from keys to a slab number and a slot number; it keeps a
-- digest in place of the key, and a read compares the key in the slot. `Put` fills slots of the
-- partial slab of a class, a full mslab is handed to a flush thread, which writes it to a free dslab
-- and leads the index there, and a collection thread frees dslabs: quick GC drops full dslabs with
-- what they hold, normal GC copies the live slots of several dslabs to a dslab of the
-- over-provisioned pool. Disk slabs are grouped by the channel of their block, and are taken from
-- the channels in turn.
--
-- The files.
--   Status      include/status.h, src/status.cpp
--   Slot, Slab  struct Slot and struct Slab of include/kvcache.h, with all their methods
--   Layout      align_ptr_up, align_ptr_down, slab_by_sid, slot, slot_to_slab, slot_id
--   Index       index_init, index_entry_alloc, index_entry_free, get_index_entry, put_index_entry,
--               del_index_entry (src/kvcache.cpp). Index.Laws: reads after writes. Index.Unique: a
--               digest stands once in a chain. Index.Count: the account of entries
--   SizeClass   slot_size, get_slab_class, MaxKVSize, default_slab_class_size
--   State       the fields of class KVCache, the lists of include/list.h, the disk, the outcomes
--   Channel     the search for the next channel that has a slab
--   Move        read_dslab, flush_mslab_to_dslab, modify_index_to
--   Flush       do_slab_flush
--   Gc          do_slab_gc; Gc.Quick: quick_gc, do_quick_gc, evict_dslab; Gc.Normal: normal_gc;
--               Gc.Copy: gc_dslabs. Gc.Quick.Evict and Gc.Quick.Reads: what quick GC hides.
--               Gc.Quick.Select and Gc.Quick.Ends: when its loop ends.
--               Gc.Normal.Collect: the slabs that are merged into one.
--               The Turn module of each part: reads and lists over a whole run
--   Api         get_slice, Get (both), Put, Delete, slot_alloc. Api.Room: which slots a slab has.
--               Api.Store, Api.Stored: Put where all it needs is at hand; Api.Running, Api.Grant,
--               Api.Relink, Api.Wait, Api.Insert, Api.Puts: Put with all it waits for
--   Init        slab_init and slab_class_init (src/kvcache.cpp), iterate_all_blocks on a device
--               (include/ssd.h). Init.Running: the first state
--   Ssd         class SSD (include/ssd.h, src/ssd.cpp) over a database or a device. Ssd.Contract: reads
--               after writes. Ssd.Keys: the keys of blocks. Ssd.Format, Ssd.Opened: what `create`
--               leaves. Ssd.Visit: iterate_all_blocks. Ssd.Created: `create`, and the cache over it
--   Options     Options and DefaultOptions, the environment and the water marks of the constructor
--   Construct   the constructor of class KVCache up to the start of the threads. Construct.Life: from
--               `create` and the constructor to any sequence of calls
--   Pool        check_ops_pool
--   CApi        include/kvcache_c_api.h, src/kvcache_c_api.cpp
--   Links       include/list.h on nodes in memory. Links.Walk: what a ring of nodes spells;
--               Links.Heads: several lists over one memory
--   Trace       sequences of calls and background rounds, and the map that a client sees
--   Lists       which slab stands on which list; Lists.Channels: a disk slab on a list of its channel
--   Reads       the invariant between index, slabs and disk (Sound), and changes of the state that no
--               read can tell. Reads.Turn: what a turn of a background thread may change
--   Tests       a small cache, and the theorems at concrete inputs
--   Base        names and helpers that all files share
--
-- How it is modelled. The state of the cache is one record, `Cache`, which every operation takes and
-- returns; `Config` holds what the constructor fixes. A slab is its `sid`, so that a pointer to a
-- slab is a number and a write through it is an update of the map `slabs`; a linked list of slabs is
-- the list of their numbers. The slots of one slab are a function from slot numbers (Layout shows
-- why they do not overlap). A slab has room for the slots that end inside it: where `slot_alloc` or
-- `gc_dslabs` takes another one, which would lie in the next slab, the operation faults (`within` of
-- State). An operation of the cache that can fail to return normally has an `Outcome`: it is done, it
-- blocks (it waits for what no step of the call gives), it throws, what it does is undefined (it
-- faults), or the fuel of the model is used up. Of the assertions the model evaluates those on the room
-- of a slab, which fault unless `Config.ndebug`, and the one in which the code does its work: `Delete`
-- decrements a counter inside `assert`.
--
-- A call is one step. Where it waits for the flush or the collection thread, the rounds of that thread
-- run inside it, in the order in which the code asks for them. Locks and interleavings of two calls
-- are not modelled, nor is the read of a value after its lock is given up.
--
-- Fuel. `slot_alloc` calls itself after each slab that it adopts or waits for: 2 is enough where a
-- slab is at hand. `await_free_dslab` loops over rounds of collection: 1 is enough where a disk slab
-- is free. `select_to_drop` needs a turn through the channels for each slab, and spins where fewer
-- slabs are full. `repay_ops_pool` is a loop with no exit but success too. `scan_channels` makes one
-- turn through the channels and needs their number, which `find_channel` gives it. `list_for_each`
-- needs a round more than there are elements.
--
-- Parameters. `Hashing` stands for std::hash and the SHA-1 of OpenSSL. `Platform` adds the disk: a
-- block that was written is read back as it was written, and other blocks keep what they hold; this
-- is the contract of SSD::read_block and SSD::write_block of src/ssd.cpp over RocksDB or a raw
-- device. It is a contract on slabs, where `Ssd` reads and writes bytes: how a slab is laid out in the
-- bytes of its block is not modelled, and so the disk of a cache and the store that its blocks are
-- counted on are two parameters. A device keeps the contract below 2 GiB only. `Medium` stands for
-- RocksDB and for pread and pwrite: a database gives back what was put last under a key, an iterator
-- meets the keys with a prefix once, a device gives back what was written. `Floats` stands for arithmetic in `float`, `System` for the environment and mmap. The
-- theorems ask nothing of the hash functions: keys that collide in chain and digest share an index
-- entry, and the statements say what happens to them.
--
-- Numbers. Counters are natural numbers, and a decrement stops at 0, save nr_full_dslab_, which is an
-- integer since it can fall below 0. `int` arithmetic of quick GC that can be negative is done in ℤ.
-- Where the code divides by 0 (a slot size, or an index table of no chains) the constructor faults.
-- Products with 1.1, 1.5, 0.9 and 0.3 are integer quotients. Addresses and sizes do not wrap.
--
-- Not modelled: thread start-up and shutdown, and so the destructor (whether mmap succeeds is a
-- parameter of the constructor); in src/ssd.cpp the alignment of buffers, the options of RocksDB and
-- closing; in the C API ssd_open and the destroy functions; and what the code prints.
pub mod Base
pub mod Index
pub mod Slot
pub mod Slab
pub mod State
pub mod Lists
pub mod Move
pub mod Gc
pub mod Flush
pub mod Status
pub mod SizeClass
pub mod Layout
pub mod Api
pub mod Reads
pub mod Tests
pub mod Ssd
pub mod Links
pub mod Options
pub mod Construct
pub mod Pool
pub mod CApi
pub mod Init
pub mod Trace
pub mod Channel
