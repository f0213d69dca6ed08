-- ===== src/Lib.antt =====
-- A verification library for rpm: models of parts of librpmio and librpm, translated from the
-- sources, and the theorems that make them correct.
--
-- Parts and files (paths from the root of the repository):
--   Base                 shared names: Boolean tests, lists over the native numbers, C strings as
--                        lists of byte values (Base/Text has the character tests of
--                        include/rpm/rpmstring.h and `strcmp`), C integers, bit operations.
--   Version/Compare      rpmio/rpmvercmp.cc. `round` is the body of the loop of rpmvercmp, cut into
--                        `tilde_round`, `caret_round` and `segment_round`; `loop` is the loop.
--                        Compare/Tokens describes the order independently, by token lists.
--   Version/Evr          rpmio/rpmver.cc: rpmverParse, rpmverNew, rpmverEVR, rpmverEVal,
--                        rpmverOverlap and rpmverCmp, which rest on rpmvercmp.
--   IndexSet             lib/backend/dbiset.cc: the sets of header and tag numbers that the
--                        database indexes return, with the C++ algorithms written out.
--   Lock                 lib/rpmlock.cc: the lock of the database and of transactions. `grants`
--                        stands for the kernel's answers to fcntl, one for each call; the
--                        theorems on releases assume that it gives a lock up when asked.
--   Order                lib/order.cc: addSingleRelation with the dependency tests it calls from
--                        lib/rpmds.cc, and addQ (Order/Queue). An element is a number, the graph
--                        gives its tsortInfo_s; a failing assertion is none.
--   Argv                 rpmio/argv.cc: argvAddN, argvAppend, argvSplitString, argvJoin, argiAdd.
--   Ds                   lib/rpmds.cc: doFind and rpmdsMerge, on sets whose strings are resolved.
--                        Flags and trigger indexes are 32 bit numbers whose differences wrap.
--   Header               lib/header.cc: the tests of an index entry (hdrchk*, strtaglen, dataLength),
--                        hdrblobVerifyInfo (Header/Info) and hdrblobInit with the tests of lengths
--                        and region (Header/Init). Reads outside of the header, its data
--                        included, are faults (`reads_outside`, `verify_data`). `tag_type` stands for rpmTagGetTagType, whose
--                        table is generated; that of rpmScriptIsProgTag is `prog_tags`.
--   StrPool              rpmio/rpmstrpool.cc: the strings of the pool and its hash table (StrPool),
--                        where its probes end (Probes, Lookup), what it has (Table, Ids), its
--                        growth (Resize, Adding, Longer, Rehash) and what the numbers mean
--                        (Interning).
--   Cpio                 lib/cpio.cc: the writing calls and the reading of data (Cpio), the header
--                        as it is read (Reading), what is written for one (Reading/Written) and
--                        the calls between two of them (Session),
--                        and the skipping of data (Reading/Skip). `Io` stands for Fwrite, Fread,
--                        sprintf and strtoul, `IsReliable` (Streams) and `IsHex` (Reading/Fields)
--                        for what they do when nothing fails.
--   Base64               rpmio/base64.cc: rpmBase64Encode and rpmBase64Decode.
--   Macro                rpmio/macro.cc: findMacroEnd and matchchar, which find where a macro call
--                        ends. `Balanced` is about calls in brackets, `Overrun` about texts that
--                        end in a backslash. Macro/Table has the table of macros with pushMacroAny,
--                        popMacro, findEntry, freeArgs and copyMacros; Table/Stacks is about it as
--                        a map to stacks, Table/Scopes about the calls of parametric macros.
--   Expr                 rpmio/expression.cc: the values and what the operators do (Expr), rdToken
--                        (Lexer), the recursive descent with rpmExprBoolFlags and rpmExprStrFlags
--                        (Parser). doMultiplyDivide, doAddSubtract and doRelational have one shape
--                        and are `do_infix` at three levels. Trees and their texts are in
--                        Syntax, what a tree means is in Meaning, said without the parser's
--                        functions; Agrees is about these; Gives, Reading, Reads, Steps, Operands, Literals and Sound
--                        lead to the refinement in Refines; Types and Discard are about types and
--                        short circuits; Within, Consumes, Enough and Terminates about the fuel.
--                        `Env` has the flag for the expansion of macros, and stands for
--                        rpmExpandMacros, atoi, the printing of an int and the call of Lua.
--
-- Representation: a C string is the list of its bytes without the NUL, a pointer that may be NULL
-- is an option, and the results 1, 0 and -1 of a comparison are `gt`, `eq` and `lt`. A function
-- that changes what its arguments point to returns the changed values. Memory allocation is taken
-- to succeed and is not modelled.
--
-- Fuel: the loop of rpmvercmp gets one round more than the first string has characters, as every
-- round that goes on consumes one of each string; the loop of rpmBase64Encode gets the number of
-- bytes, as every round takes at least one, and so does the loop of argvSplitString with the
-- length of the text; the binary search of doFind gets one round more than the set has entries.
-- All are shown to end within it. The loops over the probes of the string pool have no bound of
-- their own, as the probes of a hash need not reach every bucket: running out of fuel stands for a
-- loop that goes on. The loop over the data of a cpio file has one round for each byte that is left.
-- The recursive descent over expressions gets 12 for each character and 24 more: between two tokens
-- there are at most ten calls, and a call at the end of the text reads none.
--
-- Not modelled: input and output, the package database itself, the package build, signatures,
-- scripts and plugins. Of rpmstrpool.cc: the chunks of memory, the locks, the reference counts and
-- the statistics. Of cpio.cc: what the stream and the offset are after a call that failed. Of
-- expression.cc: the messages of errors, and the token that is read behind a failing expression in
-- parentheses. Of macro.cc: the
-- expansion, the reading of definitions, and the order of the names in the table.
pub mod Base
pub mod Version
pub mod IndexSet
pub mod Lock
pub mod Order
pub mod Argv
pub mod Ds
pub mod Header
pub mod StrPool
pub mod Base64
pub mod Cpio
pub mod Macro
pub mod Expr
