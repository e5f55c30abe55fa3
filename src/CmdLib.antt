-- ===== src/CmdLib.antt =====
-- The helpers of q3asm/cmdlib.c that the assembler does not call: texts without regard to case,
-- numbers, the parts of a path, byte orders and a checksum.
pub mod Compare
pub mod Numbers
pub mod Swaps
pub mod Crc
pub mod Parts
