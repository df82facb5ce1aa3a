-- ===== src/Lib.antt =====
-- LuaJIT 2.0.4, the C code under luajit/ of the repository, in parts that stand on their own: the
-- dump of bytecode, strings and their interning, string literals, the functions that match Lua patterns, dead-code
-- elimination in the trace compiler, 64-bit integer arithmetic and the character classes. The models are those of an x64 build: numbers are doubles (LJ_DUALNUM is 0), and the FFI
-- and the JIT compiler are there.
--
-- Base: Boolean tests and lists over native numbers, powers, stores. A `uint32_t` or `uint64_t` is a number
-- below 2 ^ 32 or 2 ^ 64, with `% 2 ^ w` written where the code wraps.
--
-- Dump: luajit/lj_bcwrite.c and luajit/lj_bcread.c. A dump is a header, prototypes from the innermost
-- on, and a zero byte. Dump.Write has one function for each `bcwrite_*` function, which gives the
-- bytes that the C function puts into the buffer; Dump.Write.Emit passes the pieces to the writer
-- callback, whose state and status it carries (`lj_bcwrite`, `bcwrite_proto`). The header and the
-- footer go the same way as there. Dump.Read and Dump.Read.Protos have the `bcread_*` functions over
-- the input that is left; `lj_bcread` starts behind the first byte, which the lexer has taken. The
-- loop over prototypes takes fuel: each round but the last takes a byte at least, so one more than
-- the bytes of the input is enough. A read past the end of the input or a shift by 32 or more is the
-- result `fault`. A host's byte order is an argument. A hash part that was read is the list of its
-- keys and values in the order of the `lj_tab_set` calls. The conversions and the comparison of
-- doubles are the processor's and a parameter (`Doubles`), of which only the range of `lj_num2int`
-- is assumed. Refilling and growing buffers, and allocation, are left out.
-- Dump.RoundTrip says which prototypes can be dumped (`IsDumpable`): sizes fit into 32 bits, line
-- numbers fit the size that `numline` asks for, debug info is well-formed, a number constant that
-- equals an integer is not -0, and a prototype with children has the flag for it. `reread` is what a
-- dump keeps of a prototype: flags without PROTO_NOJIT and PROTO_ILOOP, unpatched instructions, no
-- trace, used table entries, and debug info unless the dump is stripped.
--
-- Pattern: the matcher of luajit/lib_string.c. Pattern.Class has character classes and sets,
-- Pattern.Match has `match` and its helpers. The `goto init` of the C code and its recursive calls
-- are arguments of the helpers, tied together by `match_init` with a bound on the rounds; as every
-- round moves on in the pattern, more rounds than the pattern has bytes are enough. The behaviour
-- behind the end of subject or pattern is a zero byte, as in Lua strings. Pattern.Plain has the plain
-- search `lmemfind`, whose rounds are bounded by the length that is left, and Pattern.Find
-- `str_find_aux`, the body of `string.find` and `string.match`. Its results are a list in place of the
-- Lua stack, whose growth is left out.
--
-- Pattern.Replace has `string_gsub` with its helpers and the iterator `string_gmatch_aux`. The rounds
-- of the loop of `string_gsub` are bounded by the length of the subject and two, as each round takes a
-- byte, or is the last. A Lua function or table given as the replacement is a function of the
-- captures, and the text of a number, which is the C library's, is a parameter; the check of the
-- arguments' types is left out.
--
-- Strs: luajit/lj_str.c. `lj_str_cmp` and `str_fastcmp` read memory by words, up to three bytes behind
-- the end; memory is a function from offsets to bytes, arbitrary there. Strs.Intern has `lj_str_new`
-- and `lj_str_resize`. The string table is a function from indices to chains, which are lists; a
-- string's mark, dead or not, is kept by its address. The address and the memory that `lj_mem_newt`
-- returns come with the request, and that the address is not in use is a hypothesis (`IsRequest`).
-- Strs.Intern.Table has the invariant of the string table (`IsInterned`). A byte loop is bounded by
-- the bytes that are left. Strs.Number has `lj_str_bufint`, whose loop has ten rounds at most; `-k` of
-- the least integer is taken to wrap.
--
-- Lex: luajit/lj_lex.c, string literals (`read_string`). The input is the list of bytes that is left
-- over all calls of the reader callback; the growth of the token buffer is left out. The rounds of a
-- loop are bounded by the input, and one more than its bytes is enough. Quote: `addquoted` of
-- luajit/lib_string.c. Lex.Escapes and Lex.Quoted take the two together, Lex.Ends is on any input.
--
-- Ir: luajit/lj_ir.h, the table of opcodes with their modes, and `ir_sideeff`. Dce: luajit/lj_opt_dce.c.
-- The IR, the chains of opcodes and the `pchain` pointers are functions from references and opcodes;
-- a pointer is the head of a chain or the `prev` field of an instruction (`Slot`).
--
-- Carith: luajit/lj_carith.c from `lj_carith_divu64` on; where C leaves a division undefined, the
-- model has no value. Char: luajit/lj_char.c and luajit/lj_char.h.
--
-- Upvalues: luajit/lj_func.c, the open upvalues of a Lua state: `func_finduv`, `lj_func_closeuv`. The
-- stack is a function from slots to values; colours are left out but for dead or not.
--
-- TabLen: luajit/lj_tab.c, `lj_tab_len` and `unbound_search`. A table is told by which slots of its
-- array part are filled and which integer keys its hash part has. The doubling loop has INT_MAX rounds
-- at most, as its index grows; the linear search takes fuel, and one more than a bound of the keys is
-- enough.
--
-- Tab: luajit/lj_tab.c and luajit/lj_tab.h, the hash part of tables. A node is told by its index, and
-- the free node that `freetop` points to is an index, too. A string is told by its address, and a
-- parameter `strhash` gives the hash of the string at an address; what the code relies on of doubles
-- is IsIeee in Tab.Valid. Tab has `lj_tab_newkey` and the walk along a chain, which has as many
-- rounds as there are nodes: the chains of a table in order (`IsTab`) are no longer, as Tab.Chain
-- shows. The call of the rehash is a result of the setters. Tab.Access has the getters and setters,
-- which give the place of a value; the caller writes there. Tab.Insert has what an insertion leaves,
-- and Tab.Insert.Link, Move and Overwrite the three ways to insert; Tab.Insert.Rechain is about the
-- loop of `lj_tab_newkey` that rechains strings, for any two chains without a common node. Tab.Next
-- has the traversal, whose loops have as many rounds as there are places, and one. Tab.Count has
-- `rehashtab` up to the call of `resizetab`, and Tab.New has `lj_tab_new`; fresh memory is an
-- argument, and the colocation of an array part is left out but for the sizes. The low word of nil,
-- which the C code leaves as it is and hashes in no table in order, is 0, and write barriers are left
-- out.
--
-- TabSize: luajit/lj_tab.c, `bestasize`. The loop has 33 rounds at most, as it compares a 32-bit word
-- with a power of 2; the bins, which are counted elsewhere, are a function of the exponent.
--
-- Examples: the models and theorems on concrete inputs.
--
-- Not modelled: the interpreter (assembler), parser, the rest of the lexer, garbage collector, the
-- copying and resizing of tables, the text of doubles and the string buffer of luajit/lj_str.c, the
-- rest of the trace compiler, FFI, the C API and the libraries but for the functions on patterns;
-- luajit/lj_alloc.c and luajit/host/minilua.c, which are copies of other projects; the scripts of the
-- client.
pub mod Base
pub mod Dump
pub mod Carith
pub mod Char
pub mod Pattern
pub mod Examples
pub mod Upvalues
pub mod TabLen
pub mod Tab
pub mod TabSize
pub mod Ir
pub mod Dce
pub mod Strs
pub mod Lex
pub mod Quote
