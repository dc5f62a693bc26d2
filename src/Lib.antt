-- ===== src/Lib.antt =====
-- binjson-structures: persistent data structures in C over append-only files of binjson records.
-- This library models the layer that all of them rest on, the Raft entry log and the B+ tree, and
-- proves what makes them correct.
--
-- The parts, and how they interact:
--   Crc        src/bjfile.c: crc32_update and its table.
--   Dbuf       include/dbuf.h: dbuf_ensure and dbuf_put; Dbuf.Capacity also models `grow` of
--              src/bjfile.c, which has the same doubling loop.
--   Double     the doubles that include/bjcursor.h and src/keyenc.c see, as 64-bit patterns: the
--              tests for NaN, zero and integers, the conversions from and to integers, the order.
--   Wire       binjson.h: the type bytes and `bj_value_size`, as a record that is a parameter.
--   Cursor     include/bjcursor.h: the readers of one record, from take_type to obj_get_field.
--   Keyenc     src/keyenc.c: the parts of order-preserving keys, appended to a Dbuf.
--   BjFile     src/bjfile.c: appends, commit, sync, discard and set_len. BjFile.Io is the callback
--              table of include/bjio.h, BjFile.Reading the readers, BjFile.Protect the trailers and
--              the check of the tail, BjFile.Recover the header check and the recovery scan. They
--              call Crc for the running CRC, Dbuf.Capacity for buffers, Cursor for words.
--   Entrylog   src/entrylog.c: Entrylog.Record has the records and their parser, Entrylog.State the
--              state, commits and creation, Entrylog.Append the calls that change a log and
--              elog_term_at, Entrylog.Read elog_get, elog_get_batch and elog_verify, Entrylog.Open
--              elog_open, Entrylog.Compact elog_compact. A log keeps a BjFile and calls its append,
--              commit, sync and discard.
--              Entrylog.Session runs sequences of calls.
--   Bptree     src/bplustree.c: Bptree.Key has the keys and the positions in a node, Bptree.Node the
--              state, Bptree.Insert bpt_add, Bptree.Delete bpt_delete, Bptree.Search bpt_search,
--              bpt_entries, bpt_range and bpt_height. `Pages` is what these calls ask of the file:
--              parse_node, save_node, store_value, resolve_value, save_metadata, commit, discard.
--              Bptree.Entries is the abstract map, a list of entries in key order, and Bptree.Tree
--              the relation of pages and entries. Bptree.Laws says what a file of pages does, and
--              Bptree.Frame how its operations meet a discard; the other modules hold the
--              proofs, from a leaf up to the calls.
--   Stemmer    src/stemmer.c: the steps of stemmer_stem, and its suffix tables in Stemmer.Rules.
--   Snapstore  src/snapstore.c: the names of a store's files, from role_is_wellformed to classify.
--   Tests      runs at concrete inputs, over a host that keeps its file in memory.
-- Shared has the operators and list lemmas, Shared.Bits exclusive or, Shared.Bytes the byte orders,
-- Shared.Result the error codes, Shared.State the functions that change a state and may fail.
--
-- The correspondence. A function of the model has the C function's name. A function that changes
-- its first argument is an `Action`: it takes the state and gives the result with the state that it
-- leaves, also behind an error. `BJ_OK` with its outputs is `ok`, a nonzero code is `err`. A pointer
-- with a length is a list of bytes, and `len` or `wb_len` is the length of that list. Numbers are ℕ;
-- additions on uint64_t wrap by `add64` and `sub64` where the C code does not bound them. A double is
-- its 64-bit pattern. The array `ents` keeps the entries behind the live ones, as the C array does.
--
-- Parameters. `Platform` says SIZE_MAX and which sizes realloc serves. `Wire` stands for binjson's
-- sizes and types, `Builder`, `build_array` and `encode_header` for its record
-- builder: binjson is a submodule that the repository does not hold. `Host` is the callback table;
-- `FileHost` is what include/bjio.h says of `write` where the host keeps a file, a hypothesis of the
-- theorems on an append, a commit and a sync: a successful write puts its bytes at the offset, and a
-- write that fails may have written any part of them, but nothing before the offset. Hosts in
-- Tests.Host have this behaviour, one that always succeeds and one that fails in the midst of a write. The theorems on Entrylog take no
-- hypothesis on the host, on memory or on the builder: each call of these may fail at any time.
-- The malloc of the search's buffer is a request to `Platform`. The theorems on Bptree take `Pages`
-- with its `Laws`: what was written reads back and stays, and each operation may fail with the errors
-- that the parameter `MayFail` allows. Where it allows none, the calls succeed. `Kept` are the keys
-- that the file gives back as they are, all but -0.0, which a record spells as the integer 0.
-- Pages in memory, in Tests.Trees, have the laws and never fail. The theorem on failing changes takes
-- `Discards` instead: what a discard goes back to is changed by successful commits alone. Pages whose
-- commit fails for a lack of room, also in Tests.Trees, have these laws. The builder of an array of entries
-- is a parameter of the two listing calls.
--
-- Loops on fuel. `double_until` gets need + 1 rounds: a doubling adds one at least. The scan
-- and the search of BjFile.Recover get one round for each byte of the file, since a record and a
-- step have one byte at least; `crc_over_range` likewise gets the length of its range.
-- `double_ents` gets the count that is asked for, `gather` and `copy_entries` one round for each
-- index that is left, `digits_from` the 20 digits of a uint64_t. The searches in a node get one round
-- for each key, since a round takes one position at least; the walks of a tree get BPT_MAX_DEPTH + 1
-- levels, as in the C code, and end in `depth` below.
--
-- Not modelled: the allocation and release of the structures themselves (the calloc in
-- elog_create_at and elog_open, bjfile_dispose, elog_free, dbuf_free, dbuf_dup), the closing of a
-- host's handle, BJIO_REQUIRE_SYNC, overflows of `int` counts past 2^31. src/diff.c, src/textlog.c,
-- src/rtree.c, src/textindex.c and the rest of src/snapstore.c have no model yet, nor have the records,
-- the opening, the verification, the cursors, the bulk load and the compaction of src/bplustree.c.
-- src/geo.c is trigonometry on doubles. src/hostio.c, src/bjio_posix.c, src/bjns_bridge.c, the
-- *_wasm.c files and the JavaScript are glue to a host.
pub mod Shared
pub mod Crc
pub mod Dbuf
pub mod Double
pub mod Wire
pub mod Cursor
pub mod Keyenc
pub mod BjFile
pub mod Entrylog
pub mod Stemmer
pub mod Snapstore
pub mod Bptree
mod Tests
