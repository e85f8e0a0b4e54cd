-- ===== src/Lib.antt =====
-- latte_c: a C library of containers, encodings and server parts. This development models the
-- parts below; paths are from the repository's root.
--
-- - src/cmp/cmp.c: `Cmp`. A comparator is a function into ℤ; `IsOrder` states what a container
--   relies on, and the numeric comparators are shown to meet it.
-- - src/tree/avl_tree.c, src/tree/avl_tree.h: `Avl` (nodes, rotations, insertion, search, removal)
--   with `Avl/Iterator` (the stack iterator). The proofs: `Avl/Flat` (stored heights), `Avl/Plain`
--   (insertion without rotations), `Avl/Order` (search order and the entries from left to right),
--   `Avl/Put`, `Avl/Search`, `Avl/Remove`, `Avl/RemoveOrdered`. A NULL pointer is `null`, a
--   read through NULL is `none`; the callbacks of `avl_tree_type_t` enter as the comparator `cmp`, a
--   value stored with each node, and the optional `get_value`. Recursion is structural, the client's
--   loop over an iterator is bounded by the number of nodes.
-- - src/tree/maple_tree.c, src/tree/maple_tree.h: `Maple` (nodes, rotations, the API) with
--   `Maple/Iterator` (the stack iterator, with the capacity of its array). The proofs: `Maple/Insert` and `Maple/Remove` (the
--   recursive calls), `Maple/Refine` (the API against `Entries`, a list of entries in ascending
--   order). What rand() returns for a new node is an argument. remove_node goes on in a node that a
--   rotation made, so it runs on fuel; one more than the tree has nodes is enough.
-- - src/tree/b_plus_tree.c, src/tree/b_plus_tree.h: `BPlusTree` (nodes and splits), with
--   `BPlusTree/Inserting` and `BPlusTree/Finding`. An inner node is its children with the separators
--   between them. The proofs: `BPlusTree/Shape` (what the nodes keep), `BPlusTree/Split`,
--   `BPlusTree/Sides` and `BPlusTree/Insert` (the recursive call), `BPlusTree/Find`,
--   `BPlusTree/Focus` (the child that a search goes to) and
--   `BPlusTree/Pointers` (a pointer is a value with the node that a store through it leaves),
--   `BPlusTree/Refine` and `BPlusTree/Update` (the API against `Entries`), `BPlusTree/Below` (keys below
--   the first). The recursion runs on fuel;
--   the levels of the tree are enough. `BPlusTree/Iterator` is the iterator, which follows the leaves'
--   `next` by their addresses. The proofs: `BPlusTree/Chain` (the list of leaves, and what may take a
--   leaf's place), `BPlusTree/ChainSplit` and `BPlusTree/ChainInsert` (the operations),
--   `BPlusTree/Iterate` (the client's loop, bounded by the number of entries) and `BPlusTree/Listed`.
--   `BPlusTree/Removing` is the removal. The proofs: `BPlusTree/Removing/Cells` (a leaf's array),
--   `Removing/Parted` (what a removal keeps of the separators), `Removing/Focus` and
--   `Removing/Siblings` (neighbours among the children), `Removing/Borrow` and `Removing/Adjust`
--   (the loans and the merge), `Removing/Descend` (the leaf and the way to it), `Removing/Refine`
--   (against `Entries`) and `Removing/Lost` (where keys get lost). The descent runs on fuel, the
--   levels of the tree.
-- - src/vector/vector.c, src/vector/vector.h: `Vector`, a pointer being a number and NULL 0. The
--   proofs: `Vector/Contents` (push, pop, set, shrink and the iterator against the list of the
--   elements), `Vector/Search` (remove, add), `Vector/Compare`. `Vector/Sort` is the quicksort, with
--   proofs in `Vector/Partition`, `Vector/Ascends` and `Vector/Sorted`: it runs on fuel, one more than the elements,
--   and an index that may be -1 is kept one higher. `zrealloc` is a parameter;
--   `IsRealloc` states that the new block has the size asked for and the old cells in front. Loops
--   are structural in the number of cells left.
-- - src/bitmap/bitmap.c, src/bitmap/bitmap.h: `Bitmap`, the bytes of an sds. The proofs:
--   `Bitmap/Bits` (one bit is written and read), `Bitmap/Next` (the searches), `Bitmap/Iterator`.
--   Loops are structural in the number of bits or bytes left. bit_size is the number of bytes of the
--   sds, and the searches take it, as an `int`, for the number of bits.
-- - src/set/set.c, src/set/set.h, src/set/avl_set.c: `Set` (the table of functions as the record
--   `SetFunc`, filled by the AVL tree) and `Set/AvlSet` (what additions and the test show).
-- - src/value/value.c, src/value/value.h: `Value`, a tag and the 16 bytes of the union, with
--   `Value/Bytes` (numbers in memory). The memory behind pointers is the parameter `Runtime`;
--   `IsRuntime` states that a new sds has the bytes asked for. Cleaning runs on fuel, one more than
--   arrays are nested. The proofs: `Value/Binary` (setters and getters) and `Value/RoundTrip`.
-- - src/object/object.c, src/object/object_manager.c: `Object` (the registry of types, objects and
--   their reference counts, saving and loading over the interface of `Odb`) with `Object/Registry`
--   (the registry on a stream). The global manager is the list of its 256 entries; callbacks are
--   functions, on a memory that is a parameter. The proofs: `Object/Names`, `Object/Register`,
--   `Object/Stream` and `Object/Load` (the registry and the id map), `Object/RoundTrip` (two
--   managers and a memory buffer) and `Object/Counting`.
-- - src/odb/odb.c, src/odb/oio.h: `Odb`, the writers and readers over the interface `OioBackend` of
--   `Odb/Oio` (the function pointers read and write; `IsStream` is what the code relies on),
--   `Odb/Bytes` (little-endian numbers), `Odb/Buffer` (the memory buffer, which fills the interface).
--   The proofs: `Odb/RoundTrip`, `Odb/Items` (a client's sequence of calls), `Odb/Client`. A status
--   of 1 or 0 is a number, a NULL or -1 of a read is `none`. A file as backend is any other value of
--   the interface: fread and fwrite are outside the repository.
--
-- `Prelude` holds what the modules share: Boolean tests, lists as C arrays, ℤ and its sign, and calls
-- that may fail.
--
-- Memory is modelled only as the parameter of `Value` and `Object`: every allocation succeeds
-- (`zmalloc` aborts where it cannot), and the release of nodes has no effect but on the structure that is kept.
--
-- Not modelled: the memory pool, whose set of items in use hashes what the items hold, so that it
-- is no set of pointers once a client has written to one; the copies of other projects' libraries
-- (jemalloc and Redis's dict, list, listpack, quicklist, sds, rax, ae, lzf, crc and int_set),
-- which the parts above meet as parameters; the parts that are calls of the system or of such a
-- library around little logic (threads and tasks, sockets and server, files, log, RocksDB, json
-- over json-c, config, cache, skiplist and zset over Redis's structures); and rdb, a second
-- serialisation beside odb. In the parts above: the release of memory, strings and long doubles in
-- `cmp`, value_cmp, and the functions of the B+ tree that nothing calls. What a removal leaves of
-- the B+ tree's list of leaves is not followed.
pub mod Prelude
pub mod Cmp
pub mod Entries
pub mod Set
pub mod Vector
pub mod Bitmap
pub mod Maple
pub mod BPlusTree
pub mod Avl
pub mod Odb
pub mod Value
pub mod Object
