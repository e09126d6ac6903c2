-- ===== src/Lib.antt =====
-- Verification of the C core of the Sysmel virtual machine: integers, source texts, syntax and
-- collections.
--
-- The virtual machine of lib/sysbvm works on tuples: a 64-bit word is an immediate, whose lowest four
-- bits are a tag, or the address of an object. Its integers are immediates of 60 bits and objects of
-- 32-bit words; the scanner turns the bytes of a source text into tokens, whose integer literals the
-- integers' parser reads digit by digit with their own multiplication and addition; the tokens are
-- kept in an ordered collection, from which the parser makes the tree of the source by recursive
-- descent. Names and methods are looked up in hash tables, identity sets and dictionaries.
--
--   Prelude, Run            shared names, integers and lists over the native numbers, and how a C
--                           call ends: it returns, raises an error, or is not defined
--   Word                    include/sysbvm/tuple.h: tags, encoding and decoding of small integers
--   Integer.Magnitude       lib/sysbvm/integer.c: the loops on arrays of words (compareMagnitudes,
--                           sumInto, multiplyInto, subtractFromInto), with results in its children
--   Integer.Tuple           integer tuples, decodeLargeOrImmediate, and the conversions from and to
--                           int64_t and uint64_t
--   Integer.Arithmetic      sysbvm_integer_normalize, add, subtract, negated, multiply, divide,
--                           remainder, compare and the six tests
--   Integer.Text            sysbvm_integer_parseString and the printing of small integers
--   Integer.Factorial       sysbvm_integer_factorial
--   Integer.Primitives      the primitives of the integers, with the count of their arguments
--   Integer.Words, Value, Sums, Products, Differences, Order, Normalize, Encode, Parse
--                           proofs: words as a number, tuples as an integer, and the operations
--                           against the arithmetic of the integers
--   Scanner.Characters, Messages, Convert, Cursor, Token, Skip, Lex, Quoted, Punctuation, Scan
--                           lib/sysbvm/scanner.c: character classes, values of tokens, the state of
--                           the scanner, white space and comments, the branches of
--                           sysbvm_scanner_scanNextTokenInto, and sysbvm_scanner_scan
--   Scanner.Reach, Progress, Numbers, Closed, Marks, Blank, Order, Strings
--                           proofs: how the state moves in each of these, and the sizes of strings
--   OrderedCollection       lib/sysbvm/orderedCollection.c, with proofs in Growth, Access and Words
--   OffsetTable             lib/sysbvm/orderedOffsetTable.c: the builder and the binary search, with
--                           proofs in Latest, Search, Bounds, Build, Add and Find
--   ByteStream              lib/sysbvm/byteStream.c, whose code lib/sysbvm/stringStream.c repeats,
--                           with proofs in Growth and Contents
--   Parser.Syntax, State, Literals, Sequences, Blocks, Messages, Expressions, Parse
--                           lib/sysbvm/parser.c: the nodes of lib/sysbvm/ast.c that the parser makes,
--                           its state, and each of its functions up to sysbvm_parser_parseSourceCode
--   Parser.Progress, Behind, Reading, Sends, Unfinished
--                           proofs: how the position in the tokens moves, and what is parsed
--   Hashing                 the storage with open addressing of lib/sysbvm/set.c and
--                           lib/sysbvm/dictionary.c, with proofs in Probe, Store, Grow and Put
--   IdentitySet             lib/sysbvm/set.c: identity sets, with proofs in Insert
--   Dictionary              lib/sysbvm/dictionary.c: dictionaries, identity dictionaries and method
--                           dictionaries, with proofs in Keys and AtPut
--   Lookup                  sysbvm_type_lookupSelector and sysbvm_type_lookupSelectorWithPIC of
--                           lib/sysbvm/type.c with their caches, and lib/sysbvm/pic.c, with proofs
--                           in Entries, Coherent, Transparent and Torn
--   Tests                   runs at concrete inputs
--
-- A word of 64 bits is a natural number below 2^64, and C's unsigned types wrap around where they
-- are written `% 2 ^ 64`; a signed product that overflows is not defined. Objects have a 32-bit
-- size in their header, which a larger object loses bits of: ordered collections, offset tables
-- and byte streams read their capacities and sizes back from it (Word.size_in_slots,
-- Word.size_in_bytes). The hash tables and the large integers do not: a table is taken to have
-- fewer than 2^29 slots and an integer fewer than 2^30 words, where nothing is lost, and what is
-- shown of them is meant for these. An integer object is its sign and its list of words: the
-- objects are not changed once they are made, so the heap is not modelled. New objects start with
-- zero words. A text is the list of its bytes. The state of the scanner is its position with the
-- rest of the text from there on.
--
-- Loops over an array are recursion on the count of rounds that are left. The loops of the scanner
-- run on fuel of one more than the bytes that are left, since each round takes a byte. The digits of
-- a printed integer take fuel 64, the size of the C buffer, and a small integer has 18 digits at
-- most. The recursion of the factorial takes fuel for the depth of the C stack. The loops of the parser
-- run on fuel of one more than the tokens, since a round that goes on takes a token, and the recursion
-- of its functions on a depth of one more than the tokens, since each recursive call stands behind a
-- token of its caller.
--
-- The binary search runs on fuel of one more than the values, and each round halves the distance of
-- its bounds. The loop that doubles the capacity of a stream runs on fuel of one more than the count
-- it has to reach. An offset is kept as a tagged word, and `memory` stands for the objects that a
-- word without a tag would point to.
--
-- The tables of sets and dictionaries have one model, whose parameters are what the C functions differ
-- in: what a slot holds, the hash, the test for keys, the greatest occupancy, and whether growth counts
-- the elements anew. A reader of sysbvm_dictionary_atPut finds it as `Dictionary.at_put`, which is
-- `Hashing.put` with the slot that it writes. Hashes are any functions of the key.
--
-- The recursive lookup of a method runs on a depth of the C stack, and a lookup through the caches
-- has the same depth. The types and the inline caches are functions from addresses. A lookup is one
-- step; only in Lookup.Torn do two threads run at a time, with their reads and writes in the order of
-- the source.
--
-- The conversion of float literals is `atof` of the C library, a parameter of the scanner. Not
-- modelled: sysbvm_integer_toHexString and the primitives on strings; allocation failures and the
-- collector, and so the dictionaries of weak values; associations that are shared between a dictionary
-- and its caller; the 32-bit build; the analyzer and the interpreter, the bytecode and native code
-- generators, types but for their methods, the heap, and the packages in Sysmel itself.
pub mod Prelude
pub mod Run
pub mod Word
pub mod Integer
pub mod Scanner
pub mod Parser
pub mod OrderedCollection
pub mod OffsetTable
pub mod ByteStream
pub mod Hashing
pub mod IdentitySet
pub mod Dictionary
pub mod Lookup
pub mod Tests
