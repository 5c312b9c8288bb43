-- ===== src/Lib.antt =====
-- A model of the Lua 5.1 core that this repository builds into its software renderer: the C files
-- under kge/kge/src/lua. The renderer (kge/kge/src/main.cpp) opens a window, creates a Lua state and
-- runs the scripts of lua/; all that those scripts do goes through this core.
--
-- The parts and how they interact:
-- - Base: native numbers, tests, lists, integers, and the laws of the bit operations.
-- - Opcodes models lopcodes.h and lopcodes.c: the layout of an instruction (get_field and
--   set_field are the common shape of the GET and SET macros, getarg_a is GETARG_A, and so on), the
--   opcodes and the table luaP_opmodes. Opcodes/Fields has the arithmetic of one field,
--   Opcodes/Layout the macros together, Opcodes/Modes the table.
-- - Objects models lobject.c: luaO_int2fb, luaO_fb2int, luaO_log2, the macro ceillog2 of lobject.h, and
--   luaO_chunkid, each under its name without the prefix.
-- - Zio models lzio.c and lzio.h: the stream from which the lexer and the chunk loader read. The reader is an
--   arbitrary function. Zio/Stream says what a stream still holds; Zio/Read is about luaZ_read.
-- - Chunk models ldump.c (Chunk/Dump) and lundump.c (Chunk/Undump), which loads from a Zio stream.
--   Chunk/Encoding is the format as a function to bytes: Chunk/Written is about the first writing it,
--   Chunk/Reading, Chunk/Loaded and Chunk/Functions about the second reading it.
-- - Table models ltable.c: the two parts of a table and the search functions (Table), luaH_getn and
--   unbound_search (Table/Search), computesizes (Table/Rehash), luaH_next and findindex (Table/Traversal).
--   Table/Chains is about the search functions, Table/Border and Table/Length about luaH_getn, Table/Sizes
--   about computesizes, Table/Order and Table/Next about luaH_next. The search functions answer a Slot where the code
--   answers a pointer. Table/Insert models getfreepos and newkey, where rehash is a parameter, and Table/Set
--   luaH_set and the write of lua_rawset. Table/Links says what chains in order are and Table/Keys what keys in
--   order are; Table/Changes describes the three changes of newkey (a key put in place, a free node linked, a
--   colliding node moved), Table/Splice and Table/Move follow the chains through them, Table/Placing and
--   Table/Replacing the keys. Table/Steps and Table/Linking are about the operations that make them,
--   Table/Lookup about the search, Table/Inserted and Table/Newkey about the whole. Table/Laws derives what is
--   used of keys from the comparison of numbers and the interning of strings. Table/Valued, Table/Agree, Table/Store,
--   Table/Access, Table/Located, Table/Update and Table/Refusals are about the write.
-- - Memory models lmem.c: luaM_realloc_, luaM_reallocv and luaM_growaux_ over an arbitrary allocator.
--   Memory/Growth is about growing vectors. The other models leave the memory manager out.
-- - Debug models the verifier of ldebug.c: its checks (Debug) and symbexec with luaG_checkcode
--   (Debug/Symbexec). Debug/Post has the rules for postconditions of checks, Debug/Access what the virtual
--   machine (luaV_execute of lvm.c) uses for each instruction, with the EXTRA_STACK slots that it always has above a
--   frame, and what of it the verifier looks at; Debug/Checked, Debug/Operands, Debug/Instruction, Debug/Walk and Debug/Boundary are
--   about the checks, the operands, a round of the loop, the loop and the whole. Debug/Loader puts the loader of Chunk and
--   the verifier together.
-- - Match models the pattern matcher of lstrlib.c: character classes (Match/Class), captures and balanced parts
--   (Match/Parts), match itself (Match/Engine), and what calls it: string.find, string.match and the iterator of
--   string.gmatch (Match/Find). Match/Captures has the invariant of the captures; Match/Items, Match/Groups,
--   Match/Recall, Match/Expand and Match/Safe carry it through the parts of match, Match/Pushes and Match/Results
--   through its callers. Match/Gsub is string.gsub, and Match/Counts and Match/Substitution are about it, where
--   the calls of the replacement and the text of a number are parameters. Match/Plain is about lmemfind, over the
--   bytes of Match/Bytes. Base/Run has the postconditions of code that can raise an error, read outside of its
--   data or run out of fuel.
-- - Strings models luaS_newlstr of lstring.c with newlstr and luaS_resize. Strings/Push is about chaining one string,
--   Strings/Resize about moving all of them, Strings/Find about the search; Strings/Interning has the order of the
--   table and Strings/Newlstr the whole. The address that the memory manager gives a string is a parameter.
-- - Upvalues models luaF_findupval and luaF_close of lfunc.c with the part of luaC_linkupval that they need. The list
--   of open upvalues is a list of addresses with their places in the stack, in the order of Upvalues/Order;
--   Upvalues/Sharing is about the first, Upvalues/Closing about the second.
-- - Text models string.sub, string.byte and string.char of lstrlib.c; Text/Slices compares them.
--
-- Conventions. An unsigned word is a number below 2^32, or below 2^64 for a size_t, and its wrap-around
-- is written out; an int that may be negative is an integer of Base/Int. Strings and blocks are lists of
-- bytes. The sizes in the chunk format are those of the x64 build: int and Instruction 4 bytes, size_t
-- and lua_Number 8, little-endian. A lua_Number is a parameter with the bytes that represent it; the reader,
-- the writer and, in Chunk, the bytecode verifier are parameters too.
--
-- Bounds and fuel. The loops of luaO_int2fb and luaO_log2 have 32 and 4 rounds of fuel, more than a 32-bit
-- word needs, and luaZ_read has one round for each byte that it is asked for, since each round
-- copies one at least. LoadFunction recurs on the calls that
-- LUAI_MAXCCALLS still allows, which is the limit in the code.
--
-- The search functions of a table follow a chain for as many steps as it has nodes, which the invariant
-- WellFormed allows; the loops of luaH_getn have 32 rounds to double or to halve an interval, and 2^31 for the
-- linear search.
--
-- The loop that hashes a string has one round for each byte and one more. Interned in Table/Laws is what
-- the model of tables assumes of strings: the address of a string determines its hash.
--
-- match has one round of fuel for each byte of the pattern and one more, since each call and each goto is at a
-- later place of the pattern; its loops over the subject have one round for each byte and one more, that of
-- string.gsub two more. A pointer into a string is an index, and the zero byte that ends a string is read at the
-- index that is its length. The functions of ctype.h are a parameter; isdigit is false of the zero byte.
--
-- Not modelled: rehash of tables, string.format, userdata, parser, code generator, virtual machine,
-- collector, API and the other libraries of Lua; the depth of the C stack; failing memory allocation outside
-- Memory; the number conversions of lobject.c, which rest on the C library; the window program and the scripts.
pub mod Base
pub mod Opcodes
pub mod Objects
pub mod Zio
pub mod Chunk
pub mod Table
pub mod Memory
pub mod Debug
pub mod Match
pub mod Text
pub mod Strings
pub mod Upvalues
