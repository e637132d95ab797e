-- ===== src/Lib.antt =====
-- The RPA toolkit (mstoilov/rpatk): the base library rlib, the automata library rex and parts of
-- the matching engine.
--
-- rlib has the data structures that the rest stands on. rex turns a regular expression into an
-- NFA, whose states are kept in a database and lead by ranges of characters and by empty
-- transitions to one another; the NFA is simulated as it is, or made into a DFA by the subset
-- construction. rvm is the virtual machine that the grammars of rpa are compiled for.
--
-- Base: names of the library, Boolean tests, lists over the native numbers, bit operations.
-- Utf: rlib/rutf.c. r_utf8_mbtowc and so on are utf8_mbtowc and so on; bytes from `input` up to
--   `end` are a list, and an encoder gives the bytes that it writes.
-- CharConv: rlib/rcharconv.c.
-- RArray: rlib/rarray.c and the macros of rlib/rarray.h. r_array_add is `add` and so on. The block
--   is a list as long as alloc_size, with the stale elements above the length; the allocator, which
--   may refuse, is the argument `Memory`. The theorems that need it say that it provides memory.
-- RHash: rlib/rhash.c, with its functions on names in RHash.Names. What the hash asks of the functions
--   that it is given is `IsKey`.
-- Rex.Search: the two binary searches that rex writes out in several places.
-- Rex.Transition: rex/rextransition.c on the contents of the array. Rex.Normalize: its
--   rex_transitions_normalize, on the array itself.
-- Rex.Subset, Rex.State: rex/rexstate.c and rex/rexdb.c. A pointer to a state is its number.
-- Rex.SubsetKey, Rex.DfaConv: rex/rexdfaconv.c, the functions for its hash, the closure, the move set
--   and the unique ranges. Rex.Construct: the loop of rex_dfaconv_run, and rex_db_createdfa.
-- Rex.Dfa: rex/rexdfa.c, rex/rexdfatypes.h and rex_db_todfa, the flat form of a DFA.
-- Rex.Fragment: rex/rexfragment.c; a pointer to a transition is its place. The two empty transitions
--   that four of its functions make are `fork`. What a fragment reads is Rex.Fragment.Traces.
-- Rex.Compiler: what rex/rexcompiler.c does to the database for a character, a dot and {0}, and at
--   the end of an expression; the characters are arguments there.
-- Rex.NfaSim: rex/rexnfasimulator.c. Rex.DfaSim: rex/rexdfasimulator.c.
-- Rvm.CodeMap, Rvm.RelocMap, Rvm.Scope: rvm/rvmcodemap.c, rvm/rvmrelocmap.c, rvm/rvmscope.c.
-- Rpa.Cache: rpa/rpacache.c.
--
-- How the parts interact: the compiler puts the fragments of an expression together, each in states
-- behind those of the one before. The simulator reads characters with Utf, looks states up in the
-- database and follows their transitions. The subset construction takes the closure of a subset, makes the
-- unique ranges of its transitions with transitions_add, takes the move set of each, and finds the
-- state of its closure through the hash of subsets; it normalises the transitions of each finished
-- state. The tables of names keep their names in a hash, and a relocation resolves labels of the
-- code map.
--
-- Recursion. The binary searches have fuel for the number of elements, and each round leaves
-- fewer. The growth of an array has fuel for the length asked for, and each round adds one at
-- least. The closure has fuel for the states and the source together: a state is put on the stack
-- once as a source and once when it is marked. The recursion of addstate has fuel for the states:
-- a call marks one that was not marked. A run has fuel for the bytes of its text: a character
-- takes one at least. A label is resolved with fuel above its rank in the chain of bases. The
-- normalisation has fuel for twice the length: a round deletes a transition or goes on. The
-- removal of a key has fuel for its bucket. The subset construction has fuel for all subsets of
-- the states, as no subset gets two states. The theorems show for each of these that the fuel does
-- not run out.
--
-- Numbers of C's size_t are natural numbers, as indices and counts stay below the size of memory.
-- A character is a 32-bit number, and highin + 1 wraps.
--
-- Not modelled: the parser of regular expressions with its character classes and counts, the table
-- of first bytes of the flat DFA; the maps, the hash array, the chunked array and the strings of
-- rlib; the instructions of rvm; the parser, the compiler and the records of rpa. Nor are memory and
-- object management, printing, the command line tools, the bindings and examples. A null pointer that
-- C reads through, for a state or a substate that is not there, is a zeroed one here, and a
-- relocation outside of the code writes nothing.
pub mod Base
pub mod Utf
pub mod CharConv
pub mod RArray
pub mod Rex
pub mod RHash
pub mod Rvm
pub mod Rpa
