-- ===== src/Examples/Natives.antt =====
-- Memory, the range tests and the native functions on a data section of 128 bytes.
use q3vm.Base.{
  ◌%◌, ◌&&◌, none, ◌<◌, ◌+◌, ◌↔◌, ◌-◌, ltb, ◌==◌, ◌^◌, true, some, if◌then◌else◌, ◌≡◌, refl, arith,
}
use q3vm.Access.{block_copy_allowed, block_copy, memory_range_valid}
use q3vm.Access.Copy.{moved, block_copy-copies, block_copy-escapes}
use q3vm.Access.Range.{memory_range_valid_iff}
use q3vm.Create.{vm_free}
use q3vm.Create.Balance.{vm_free-releases, IsBalanced}
use q3vm.Examples.{loaded_vm, loaded_example, section_of, no_blocks}
use q3vm.Memory.{inside, bytes4, Block, write4}
use q3vm.Native.{system_calls, native_memset}
use q3vm.Native.Memset.{native_memset_outcome, native_memset-escapes}
use q3vm.State.{data_out_of_range, blockcopy_out_of_range, tell, fail_with, cleared}
use q3vm.Access.Copy
use q3vm.Native

memory_range_valid_iff_example :
    ((memory_range_valid 16 8 (some loaded_vm) no_blocks).0 ≡ true) ↔ ((0 < 16) × (16 + 8 < 2 ^ 7))
memory_range_valid_iff_example =
    memory_range_valid_iff 7 loaded_vm (omega arith) refl 16 8 no_blocks (omega arith) (omega arith)

block_copy-copies_example :
    block_copy 64 16 8 loaded_example
    ≡ some (
        if ltb (64 + 8) (2 ^ 7) && ltb (16 + 8) (2 ^ 7)
        then Copy.with_base (moved (section_of 128) 64 16 8) loaded_example
        else fail_with blockcopy_out_of_range loaded_example)
block_copy-copies_example =
    block_copy-copies 7 loaded_example (omega arith) refl (section_of 128) refl refl 64 16 8
      (omega arith) refl

block_copy-escapes_example :
    (block_copy_allowed 127 64 16 (2 ^ 64 - 4) ≡ true)
    × (block_copy 64 16 (2 ^ 64 - 4) loaded_example ≡ none)
block_copy-escapes_example =
    block_copy-escapes 7 loaded_example (omega arith) refl (section_of 128) refl refl 64 16 4
      (omega arith) (omega arith) (omega arith) (omega arith) (omega arith)

native_memset_outcome_example :
    native_memset loaded_example 32 300 8
    ≡ some (
      if 32 == 0
          then loaded_example
          else if ltb (32 + 8) (2 ^ 7)
          then Native.with_base loaded_example (record (section_of 128) {
            cell = λ q. if inside 32 8 q then 300 % 256 else (section_of 128).cell q;
          })
          else tell data_out_of_range loaded_example,
      32,
    )
native_memset_outcome_example =
    native_memset_outcome 7 loaded_example (section_of 128) (omega arith) refl refl refl 32 300 8
      (omega arith) (omega arith)

native_memset-escapes_example : native_memset loaded_example 32 0 (2 ^ 32 - 4) ≡ none
native_memset-escapes_example =
    native_memset-escapes 7 loaded_example (section_of 128) (omega arith) refl refl refl 32 0 4
      (omega arith) (omega arith) (omega arith)

abbrev stored_section : Block
stored_section = record (section_of 128) { cell = bytes4 (section_of 128).cell 12 5 }

stored_lem : write4 (section_of 128) 12 5 ≡ some stored_section
unfolding write4
stored_lem = refl

vm_free-releases_example :
    IsBalanced no_blocks (vm_free loaded_example) × ((vm_free loaded_example).vm ≡ cleared)
vm_free-releases_example =
    vm_free-releases loaded_example no_blocks
      (record { code = refl; data_ = refl; pointers = refl; idle = refl })
