-- ===== src/Lib.antt =====
-- neonrt: the containers and the wire helpers of a C run-time library.
--
-- The program. `containers/hashmap.c` is a hash table from byte keys to pointers. Its buckets hold
-- keys as managed buffers (`containers/buffer.c`); a bucket with more than one key holds a linked list
-- (`containers/linked_list.c`) of keys with values. Keys are compared and placed by SipHash, through
-- `util/sip_wrapper.c`, which lays out the SipHash key and reads the hash with `util/wire.c`.
-- `ringbuffer/ringbuffer.c` is a byte queue on its own. All paths are below `src/` of the repository.
--
-- The files. Each has child modules for its proofs.
--   Base, Bits, Word: lists, options, Boolean tests; bitwise operators; C's unsigned casts and sums.
--   Wire: `util/wire.c`; Wire/Macro has the macros of `util/wire.h`. Each function takes the bytes from its
--     pointer on; `none` is an access past them.
--   SipWrapper: `util/sip_wrapper.c`.
--   RingBuffer: `ringbuffer/ringbuffer.c`. A ring is a record, the array behind it a list. The functions
--     that allocate and release a ring are commands on the store, in RingBuffer/Store. RingBuffer/Queue
--     is the abstract queue with its clients' calls, and RingBuffer/Run runs them on a ring.
--   SecureErase: `util/secure_erase.c`, on a list of bytes.
--   Memory: the store of the containers. An address holds one C object, and a command returns a result
--     with a new store, or is a fault, which is what C leaves undefined, or is cut off. Memory/Frame has
--     what a change of the store leaves alone, and allocators with room.
--   Buffer, LinkedList: `containers/buffer.c` and `containers/linked_list.c`, as commands on the store,
--     one for each function and with its name.
--   HashMap: `containers/hashmap.c`. The struct of a map is a record that commands pass on beside the
--     store. HashMap/Check has the errors, HashMap/Chain the buckets that are lists, HashMap/Resize the
--     growing of the table with the load factor, HashMap/Table the operations that the header declares.
--     HashMap/Slot and HashMap/Represent say which keys with values the buckets of a map stand for;
--     HashMap/Dict is the abstract dictionary with its clients' calls, and HashMap/Session runs them on
--     a map. HashMap/Arrays, HashMap/Settle, HashMap/Move and HashMap/Rehash follow the keys of a resize to
--     their new buckets, HashMap/Scatter says which these are, and HashMap/Discard, HashMap/Freed and
--     HashMap/FreeBuckets what is freed. HashMap/Thrive and HashMap/Growth are about maps that grow, and
--     HashMap/Lifetime about one from its creation to its release.
--   Guest: the map that `test_guest/guest.c` makes, and its callback.
--   Tests: the theorems at concrete inputs.
--
-- Bounds and fuel. `size_t` is 64 bits, and its sums, products and differences are written with their
-- remainder. Sizes of structs are those of a 64-bit target. Loops over a count are recursions on the
-- rounds that are left. A walk along a list to its end, and `validate_utf8`, run on a number of rounds.
-- A list needs one round more than it has nodes, since the last finds the null pointer; valid text needs
-- one more than its length, since each code point moves the index on. `hmap_resize` is given the depth
-- to which its calls of itself may nest.
--
-- Parameters. `malloc` is an allocator that returns a null pointer or an address not in use. Where calls
-- must not run out of memory, it gives an address up to the first from which on none is in use, as long
-- as that is under a limit. `siphash` is a function with 8 bytes of output, and `utf8proc_iterate` a
-- function from bytes to a step. The hook of `explicit_erase` is a function on the bytes. The callbacks
-- of a program are numbered: error callbacks are recorded, with the function and the message apart, and
-- unhealthy callbacks are functions given to the model.
--
-- Not modelled. `hmap_free` of a null pointer does nothing. `extra/siphash.c` and `extra/mum_hash.h` are
-- copies of other libraries. `neon_info.c` holds constants, and `ioutil/ioutil.h` declares functions that
-- the repository does not implement. The sample does not compile. Of the guest test, the list of its lines
-- and what it prints are left out.
-- Overlap of one object's bytes with another's is outside the store's view: an address is the start of
-- an object. `utf8proc_iterate`, which `validate_utf8` gives a length of 4, sees the bytes that are left
-- in the list, so a read of it past them is no fault. A map's struct is outside the store, so a use of it
-- after `hmap_free` is no fault. The load in the message of `default_unhealthy_callback` is left out.
pub mod Base
pub mod Bits
pub mod Word
pub mod Wire
pub mod SecureErase
pub mod RingBuffer
pub mod Memory
pub mod SipWrapper
pub mod Buffer
pub mod LinkedList
pub mod HashMap
pub mod Guest
pub mod Tests
