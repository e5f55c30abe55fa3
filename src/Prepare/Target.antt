-- ===== src/Prepare/Target.antt =====
-- The test of a jump target in `VM_PrepareInterpreter`.
use q3vm.Base.{ℕ, ◌+◌, ◌^◌, ◌<◌, ◌≡◌, none, some, arith, ltb, ◌==◌, if◌then◌else◌}
use q3vm.Base.Word.{u32}
use q3vm.Memory.{update, Block, set, get}
use q3vm.Prepare.{refused, going, translate_branch}
use q3vm.State.{jump_to_invalid_instruction}

-- With an instruction table of exactly `count` entries, three things can become of the operand of a
-- conditional jump. The number of an instruction is replaced by the start of that instruction; a
-- larger number or a negative one is refused; and the number `count` itself passes the test, and
-- the read of the table is then outside of it.
pub translate_branch_outcome :
    (pointers : Block) (count p : ℕ) (code : Block)
    → pointers.size ≡ count
    → count < 2 ^ 31
    → p < code.size
    → code.cell p < 2 ^ 32
    → translate_branch pointers count p code ≡ (
        if ltb (code.cell p) count
        then some (
            going (
              record code { cell = update code.cell p (u32 (pointers.cell (code.cell p))) },
              p + 1,
            ))
        else if code.cell p == count
        then none
        else some (refused jump_to_invalid_instruction (code, p)))
unfolding translate_branch get set
translate_branch_outcome pointers count p code size few inside word = ground arith
