-- ===== src/Assembler.antt =====
-- The assembler q3asm/q3asm.c, which turns the output of lcc into a bytecode file.
pub mod Run
pub mod Text
pub mod Hash
pub mod State
pub mod Symbols
pub mod Expression
pub mod Opcodes
pub mod Directives
pub mod Line
pub mod Output
pub mod Paths
pub mod Passes
pub mod Lockstep
pub mod Placement
pub mod Written
pub mod Indexed
pub mod Closed
pub mod Bytes
pub mod Halting
pub mod Ending
pub mod OpTable
pub mod Loaded
pub mod Scanner
pub mod Files
pub mod Options
pub mod Main
pub mod MapFile
