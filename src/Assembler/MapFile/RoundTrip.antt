-- ===== src/Assembler/MapFile/RoundTrip.antt =====
-- The whole map file: what `WriteMapFile` of q3asm/q3asm.c writes, `VM_LoadSymbols` of src/vm/vm.c
-- reads.
use q3vm.Base.{List, ℕ}
use q3vm.Assembler.MapFile.{listed, map_lines}
use q3vm.Assembler.State.{Sym, Asm, SegmentName}

-- The symbols of a segment that the map file lists.
abbrev pub symbols_of : SegmentName → Asm → List Sym
symbols_of name asm = listed name asm.store asm.symbols

abbrev lines_of : ℕ → SegmentName → Asm → List ℕ
lines_of seg name asm = map_lines seg (symbols_of name asm)
