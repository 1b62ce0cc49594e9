-- ===== src/Lib.antt =====
-- Incll is a Masstree (a trie of B+-trees) kept in non-volatile memory. Time is cut into epochs. At
-- the end of an epoch all caches are flushed; after a failure the tree goes back to the state at
-- the start of the failed epoch. The first change of a leaf in an epoch is logged inside the cache
-- line that it changes (in-cache-line log), the second one makes a copy of the leaf in an external
-- log.
--
-- The parts, and the files that model them:
--   Kpermuter    kpermuter.hh: the order of a leaf's slots as 4-bit fields of one 64-bit word.
--   Nodeversion  nodeversion.hh: the version word of a node, which is its lock and tells readers
--                about changes.
--   Incll        masstree_struct.hh, incll_lv_: the word that logs one value of a leaf.
--   Ksearch      ksearch.hh: binary and linear search of a key among those of a node.
--   Circular     circular_int.hh: epochs as words under the circular order.
--   Extlog       incll_pextlog.hh: the buffer of the external log, in words of 8 bytes.
--   Internode    masstree_struct.hh, masstree_split.hh: the inner nodes, and how they are split.
--   Leaflink     btree_leaflink.hh: the doubly linked list of the leaves.
--   GlobalFlush  incll_gf.hh: how the threads agree to stop for a flush.
--   Slice, Key   string_slice.hh, masstree_key.hh: keys as strings in memory, and their slices.
--   Stringbag    stringbag.hh: the suffixes of a leaf's keys in one array.
--   ValueBag     value_bag.hh: the columns of a row, and how an update makes a new row.
--   ValueArray   value_array.hh, value_array.cc: rows that share the strings of their columns.
--   Leaf         masstree_struct.hh, leaf: the logs of a leaf, recording, and recovery.
--   Ksuf         masstree_struct.hh, assign_ksuf: how a leaf goes over to a larger bag.
--   Leafsplit    masstree_split.hh: the split of a full leaf.
--   Descent      masstree_struct.hh, reach_leaf: the way from a node to the leaf that is responsible
--                for a key, one read of the shared memory after the other.
--   Neighbour    masstree_struct.hh, get_prev_safe and get_next_safe: the leaves beside a leaf.
--   Lookup       masstree_get.hh: the search for a key through the layers, with advance_to_key and
--                ksuf_matches of masstree_struct.hh.
--   Cursor       masstree_insert.hh, masstree_remove.hh, kvrow.hh: the operations on a leaf, as the
--                list of the states after each of their stores.
--   Base, Bits   shared names, lists, words, and the laws of the bit operations.
--
-- A word of w bits is a natural number below 2 ^ w, and arithmetic on it wraps. A method that
-- changes an object returns its new state; the operations bear the names of the source. The global
-- variables globalepoch and failedepoch are arguments. A leaf has 14 slots, as KEY_LW is in the
-- configuration with in-cache-line logs. Of the external log the model has the records of the leaf
-- at hand; what the bodies of make_split and make_new_layer do to a leaf is an argument of which
-- only is used that it keeps the epoch and the flag of the leaf, and the pointer that assign_ksuf
-- leaves in the leaf is an argument of an insertion. The searches take the size of the
-- node as fuel, which they cannot use up, the search of a split one round more than that, and the
-- undoing of a log takes a round for each entry. The ways through the tree take as fuel a bound on
-- their steps, and their theorems tell how much is enough from the heights of the layers. A failure
-- may come before an operation and after each of its stores to the fields of the leaf: the version
-- and the state, the value, key, key length and pointer to the suffixes of the slot, the value once
-- more, and the permutation. Only a logging function and the body of a split or of a new layer are
-- taken as one store. Stores within one cache line keep their order, as the program assumes of the
-- hardware. The searches in a node are the binary ones, which nodeparams chooses.
--
-- Not modelled: allocation but for the columns of a row, the device that flushes, the network and log
-- servers, the other formats of values, scans, JSON and string libraries, and the test programs.
-- Concurrency is in the version word, in the protocol of the flush, and in the way to a leaf; the
-- search through the layers, insertion and removal are those of a thread that runs alone, with the
-- checks that other threads would make it repeat.
pub mod Base
pub mod Bits
pub mod Kpermuter
pub mod Incll
pub mod Nodeversion
pub mod Ksearch
pub mod Circular
pub mod Extlog
pub mod Internode
pub mod Leaflink
pub mod GlobalFlush
pub mod Slice
pub mod Key
pub mod Stringbag
pub mod ValueBag
pub mod ValueArray
pub mod Leaf
pub mod Ksuf
pub mod Leafsplit
pub mod Descent
pub mod Neighbour
pub mod Lookup
pub mod Cursor
