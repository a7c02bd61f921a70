-- ===== src/Lib.antt =====
-- Cauchy, a C library of replicated data types: vector clocks, and counters, registers and sets that
-- replicas update on their own and merge. This development models the library function by function
-- and proves what replicas rely on.
--
-- How the program is put together. A vector clock (src/core/vclock.c) counts the events of up to 64
-- nodes. A G-Counter (src/crdt/g_counter.c) has the same representation, a count for each node; a
-- PN-Counter (src/crdt/pn_counter.c) holds two of them, for increments and decrements. An LWW
-- register (src/crdt/lww_register.c) holds up to 256 bytes with the stamp of their write. A G-Set
-- (src/crdt/g_set.c) is a hash table of byte strings, a 2P-Set (src/crdt/2p_set.c) two of them, for
-- additions and removals, and an OR-Set (src/crdt/or_set.c) a hash table of tagged additions, which
-- removals turn into tombstones. A context (src/core/cauchy.c) is a node with its clock, which numbers
-- its operations. Replicas exchange whole states, as bytes or in memory, and join them by the merge
-- function of the type. A memory pool (src/core/memory.c) hands out blocks of one size, for the sets
-- among others, and hazard pointers (src/core/hazard.c) put off freeing what a thread still reads.
--
-- Which file models which part. A function cauchy_vclock_f, cauchy_gcounter_f, cauchy_pncounter_f,
-- cauchy_lww_f, cauchy_gset_f, cauchy_2pset_f, cauchy_orset_f, cauchy_context_f, cauchy_pool_f or
-- cauchy_hazard_f is the definition f of the module or of its child.
--   Prelude, Prelude/*      lists, loops, functions changed at one argument, Boolean tests, integers
--   Platform                include/cauchy/platform.h: what the preprocessor decides
--   Types, Types/Codes      include/cauchy/types.h and src/core/types.c: identifiers, result codes,
--                           causality, and the integers that stand for them
--   Bytes, Bytes/*          how memcpy lays out an integer: an interface, and its little-endian form
--   Cells, Cells/*          what clocks and G-Counters share: 64 cells of 64 bits, their sum, the
--                           comparison of two clocks, the wire format
--   Convergence             replicated types in general: states seen through a join semilattice;
--                           Classes is their quotient by what is seen
--   Vclock, Vclock/*        src/core/vclock.c and include/cauchy/vclock.h
--   GCounter, GCounter/*    src/crdt/g_counter.c and include/cauchy/crdt/g_counter.h
--   GCounter/Network        nodes that count and gossip, as a step relation over these functions
--   PnCounter, PnCounter/*  src/crdt/pn_counter.c and include/cauchy/crdt/pn_counter.h
--   LwwRegister, .../*      src/crdt/lww_register.c and include/cauchy/crdt/lww_register.h
--   Chains                  what the hash tables of G-Sets and OR-Sets share: the order of their loops
--   GSet, GSet/*            src/crdt/g_set.c and include/cauchy/crdt/g_set.h: sets that only grow, as hash
--                           tables with chains
--   TwoPhaseSet, .../*      src/crdt/2p_set.c and include/cauchy/crdt/2p_set.h: a G-Set of additions and
--                           one of removals
--   OrSet                   src/crdt/or_set.c and include/cauchy/crdt/or_set.h: the state of a replica
--                           and its own operations
--   OrSet/Merge, Iter       merging and equality; the string forms and the iterator
--   OrSet/Status ... Counts what a replica knows of a tag, merging as its join, and the counters
--   OrSet/Same, Classes     what or_set.c can tell apart; OR-Sets up to what they know, a quotient on
--                           which merging is total
--   OrSet/Network           replicas that add, remove and gossip, as a step relation
--   Context, Context/*      src/core/cauchy.c and include/cauchy/cauchy.h: a node with its clock;
--                           Lifecycle is its creation and destruction together with those of its pool
--                           and its hazard domain, block by block; Library the flag and the version
--   Atomic, Atomic/Wide     include/cauchy/atomic.h: single accesses; src/core/atomic.c: those of 128
--                           bits
--   Pool, Pool/*            src/core/memory.c and include/cauchy/memory.h: the memory pool; Blocks is
--                           its free list as a list, States who holds a block, Create and
--                           Rounding new pools, Races interleavings; Aligned and Wipe are aligned
--                           allocation and clearing memory
--   Hazard, Hazard/Retire   src/core/hazard.c and include/cauchy/memory.h: hazard pointers; Records,
--                           Protected, Survival, Reclaim and Stale are the proofs
--   Hazard/Claims           threads that ask for a record at the same time, as a step relation
--   Storage, Storage/*      creating and destroying sets, block by block
--   Tests, Tests/*          runs, and the theorems at concrete states
--
-- How state is modelled. A struct is a record, an array a list with the length of the array, a
-- pointer that may be NULL an Option. A function that writes through a pointer returns what it
-- leaves behind it. A function that allocates takes the block that the allocator returned, or none.
-- A 64-bit addition to a field is written with its remainder by 2 ^ 64, and so are the addresses of the
-- blocks of a pool. A buffer is a list of bytes next to the declared size, which theorems relate to the
-- length of the list. The byte order is a parameter, Bytes.Layout, with the laws that memcpy to and from
-- a buffer obeys. A loop over the active nodes is structural recursion on their number, so it needs no
-- fuel. What a thread reads twice while others write is a function of the state at the second read
-- where its own store stands between the two (Hazard.Round).
--
-- Bounds. A state is well formed (IsValid) when its array has its length, the number of nodes is at
-- most 64, the counts fit 64 bits, and the cells behind the active nodes are zero. The value of a
-- counter is read modulo 2 ^ 64, as in C. A hash table is well formed when it has at least one bucket
-- and each element stands in the bucket of its hash.
--
-- Memory. What malloc, calloc and the pool answer to an addition to a set is an argument of
-- the function; merging takes an answer for each element. The pool itself is part of the model of a
-- set only where sets are created and destroyed (Storage).
--
-- Fuel. The iterator of a G-Set looks for the next bucket with an element; its fuel is the number of
-- buckets, and every round passes one. The loop that counts the members of a 2P-Set has the number
-- of elements and one as fuel, and every round takes one element. The loops of the iterator of an
-- OR-Set over the buckets have their number as fuel; its outer loop can run on, so its fuel is an
-- argument and running out of it is a result of its own.
--
-- Threads. The calls of a pool and of a hazard domain are modelled one after the other, of any threads
-- in any order. Where a theorem interleaves two calls it names the accesses between them. What a
-- thread reads from memory that others write to is an argument. A loop around a compare-and-swap has
-- fuel for its rounds; every round that nothing interferes with succeeds. Hazard/Claims has a step for
-- each access to memory that threads share, in any interleaving.
--
-- The heap. Context/Lifecycle and Storage record each block that was allocated and each that was given
-- back; what allocation returns is a list of answers. Pool/Aligned takes the allocators of the C library as
-- functions.
--
-- Not modelled: the memory orderings of the atomic accesses and the fences; the load of 128 bits on
-- x86-64, whose assembly names no memory operand; the attributes of include/cauchy/platform.h, which are
-- hints for a compiler; the functions that print, and the destruction of clocks, counters and registers,
-- which frees one block.
pub mod Prelude
pub mod Platform
pub mod Types
pub mod Bytes
pub mod Cells
pub mod Convergence
pub mod Vclock
pub mod GCounter
pub mod PnCounter
pub mod LwwRegister
pub mod Chains
pub mod GSet
pub mod TwoPhaseSet
pub mod OrSet
pub mod Context
pub mod Atomic
pub mod Pool
pub mod Hazard
pub mod Storage
mod Tests
