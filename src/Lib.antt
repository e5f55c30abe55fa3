-- ===== src/Lib.antt =====
-- q3vm: a virtual machine for the bytecode that lcc and q3asm produce (vm/vm.c, vm/vm.h under the
-- folder src of the repository), with a standalone interpreter around it (main.c beside vm). The
-- assembler itself (q3asm/q3asm.c, q3asm/opstrings.h) is modelled too. This library models the
-- machine as a build with gcc makes it: without DEBUG_VM, with computed gotos, on a little-endian
-- host with 64-bit pointers and 32-bit int.
--
-- How the parts interact. The host gives a file to `VM_Create`, which loads its data section
-- (`VM_LoadQVM`), expands its code to words and builds the instruction table
-- (`VM_PrepareInterpreter`). `VM_Call` builds a frame in the data section and runs the words
-- (`VM_CallInterpreted`). A call of a negative number leaves to the host's `systemCall`, which
-- may read and change the machine through `VM_ArgPtr` and `VM_MemoryRangeValid`, and may call
-- `VM_Call` again. `VM_Free` gives the memory back.
--
--     Base: names shared by all files, tests on numbers, and 32-bit words (Base/Word, Base/Mask).
--     Memory: arrays as blocks with a size; `LittleEndianToHost`; the typed accesses
--     `*(int*)&image[a]`.
--     Opcode: `opcode_t` of vm.c, the dispatch table, which op codes have an operand.
--     State: the types of vm.h, and what the host is told.
--     Image: `VM_LoadQVM`. The header check is `header_bad`, the loop that rounds up is
--     `find_shift`.
--     Prepare: `VM_PrepareInterpreter`. Its two loops are `expand` and `translate`.
--     Create: `VM_Create`, `VM_Free`, `Q_strncpyz`.
--     Access: `VM_ArgPtr`, `VM_MemoryRangeValid`, `VM_BlockCopy`.
--     Interp: `VM_CallInterpreted` and `VM_Call`. Interp/Exec has the op codes of data and
--     arithmetic, Interp/Control those that move the program counter or the program stack,
--     Interp/Run the loop, the entry and the exit.
--     Symbols: `COM_Parse`, `ParseHex`, `VM_LoadSymbols` on the buffer of the file
--     (`load_map_file`) and `VM_ValueToFunctionSymbol`, which vm.c has under DEBUG_VM; Trace has
--     `VM_ValueToSymbol`, `VM_Indent` and the lines of `VM_StackTrace`.
--     Native: `systemCalls` of main.c.
--     Assembler: q3asm.c. Run and State have its results and its globals, Text the characters,
--     Hash and Symbols the symbols, Expression `ParseExpression`, Opcodes opstrings.h and its
--     table, Directives the clauses `TryAssemble..`, Line `AssembleLine`, Passes `ExtractLine`
--     and `Assemble`, Output the files that are written, Paths their names (cmdlib.c). Scanner
--     has the `COM_Parse` of cmdlib.c, Files the reading of files, Options the command line and
--     `ParseOptionFile`, Main the whole program. MapFile compares the map file with what
--     `VM_LoadSymbols` reads. Lockstep compares the two passes and Placement draws the
--     conclusion; Closed carries a property from the parts to a whole line, and to all of
--     `Assemble`, for Halting, Ending, Indexed and Bytes (the images hold bytes); Written and
--     Loaded lead to `VM_LoadQVM`; OpTable is about the table of op codes.
--     CmdLib: the helpers of q3asm/cmdlib.c that the assembler itself does not call: Compare
--     (`Q_stricmp`, `CheckParm`), Numbers (`ParseHex`, `ParseNum`), Parts (the parts of a path),
--     Swaps (byte orders), Crc (the checksum).
--     Examples: the theorems at concrete inputs.
--
-- The assembler reads its files twice: the first pass defines the symbols, with values relative
-- to their segments, and finds the sizes of the segments; the second places the segments behind
-- each other and emits the addresses. What it writes is the file that `VM_LoadQVM` reads.
--
-- How C is modelled. An int is the number below 2 ^ 32 with its bits, an intptr_t or size_t the
-- one below 2 ^ 64; every wrap of an address, an operand or a value is written out. Numbers that
-- only count (`errorCount` and the instructions of the assembler, the lines of a scanner,
-- `breakCount`, `callLevel`) are natural numbers. Signed overflow wraps, as it does in the
-- generated code. An access outside a block, a division that C leaves undefined, a shift by 32 or
-- more and a copy between overlapping ranges give `none`. The data section is shared by `vm_t`
-- and by the locals of the interpreter: it is the field `image` of `Machine` while op codes run,
-- and is put back into the `vm_t` before the host sees it. `Com_Error` returns, as the one of
-- main.c does not but the documentation allows, and is recorded in `World`; so are the numbers of
-- live blocks. The op stack is the array of 256 words behind the byte `opStackOfs`, as a function
-- of the index (Interp/OpStack is about its bounds); what it holds at the start is a parameter.
--
-- Fuel. `run` makes at most as many rounds as its fuel says, since bytecode may loop; a call that
-- has used it up is `out_of_fuel`, which stands for a call that has not returned yet. The loop
-- that rounds the data size up has fuel 31, one round for each shift of an int that is defined.
-- The copies of the assembler into buffers of a fixed size, which it does not guard, are
-- `faulted` where the text is too long. An action of the assembler takes its globals to a result
-- and the globals after it; it may also end the process (`exited`), do what C leaves undefined
-- (`faulted`), or still run when its fuel is used up (`unfinished`). The loop over the lines of a
-- file has a round for each of its characters and one more; every line but one that is too long
-- takes a character at least. The loops of `COM_Parse` (both of them) and `VM_LoadSymbols` have a
-- round for each character of the text and one more, the loop of `ParseOptionFile` two more.
--
-- Parameters: the allocator and the contents of fresh memory (`Host`), the native functions
-- (`SystemCall`), the float unit (`FloatUnit`), the `qsort` of the C library, and the file system
-- (`Disk`): the bytes of the files, which paths can be opened to be written, and which
-- directories `mkdir` makes.
--
-- Not modelled: the profile of debug builds, and the checks and counters that their op codes
-- have; the file reading and command line of main.c, whose `Com_Error` ends the process in the
-- middle of a call; of cmdlib.c the search for the game directory, which depends on the working
-- directory, the wildcards of Windows, and the functions that only call the C library; what the
-- assembler prints, and the time; lcc, a copy of another project; the example and the tests,
-- which run inside the machine.
pub mod Base
pub mod Memory
pub mod Opcode
pub mod State
pub mod Access
pub mod Image
pub mod Prepare
pub mod Create
pub mod Interp
pub mod Native
pub mod Examples
pub mod Symbols
pub mod Assembler
pub mod CmdLib
