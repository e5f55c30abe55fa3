-- ===== src/Interp/Ready.antt =====
-- When an op code is defined: what it needs beyond a confined data section.
use q3vm.Base.{ℕ, ◌+◌, ◌^◌, ◌≤◌, ◌<◌, ◌≡◌, Option, none, some, false, List}
use q3vm.Base.Word.{add32, sdiv_undefined}
use q3vm.Interp.Confined.{IsSandboxed}
use q3vm.Interp.Machine.{SystemCall, FloatUnit, Machine, float_at}
use q3vm.Memory.{Block, overlap}
use q3vm.Opcode.{
  Opcode, enter, leave, call, const, local, jump, eq, ne, lti, lei, gti, gei, ltu, leu, gtu, geu,
  eqf, nef, ltf, lef, gtf, gef, arg, block_copy, divi, divu, modi, modu, lsh, rshi, rshu, cvfi,
}
use q3vm.State.{State}

-- The operand of the op code stands inside the expanded code.
abbrev pub HasOperand : Machine → Type 0
HasOperand m = m.program_counter < m.code_image.size

-- The instruction table has an entry for every instruction.
abbrev pub HasTable : Machine → Type 0
HasTable m =
    (pointers : Block) × (m.vm.instruction_pointers ≡ some pointers)
    × (m.vm.instruction_count ≤ pointers.size)

-- The native functions return.
abbrev pub HostReturns : ℕ → SystemCall → Type 0
HostReturns k system =
    (s : State) (args : List ℕ)
    → IsSandboxed k s
    → (s' : State) × (r : ℕ) × (system s args ≡ some (s', r))

abbrev pub operand_word : Machine → ℕ
operand_word m = m.code_image.cell m.program_counter

abbrev pub IsConverted : Option ℕ → Type 0
IsConverted none = ⊥
IsConverted (some v) = Unit

-- The condition of each op code; the op code itself is already fetched.
abbrev pub Ready : FloatUnit → Opcode → Machine → Type 0
Ready f enter m = HasOperand m
Ready f leave m = HasOperand m × (add32 m.program_stack (operand_word m) + 4 ≤ m.image.size)
Ready f call m = HasTable m × (m.program_stack + 68 ≤ m.image.size)
Ready f const m = HasOperand m
Ready f local m = HasOperand m
Ready f jump m = HasTable m
Ready f eq m = HasOperand m
Ready f ne m = HasOperand m
Ready f lti m = HasOperand m
Ready f lei m = HasOperand m
Ready f gti m = HasOperand m
Ready f gei m = HasOperand m
Ready f ltu m = HasOperand m
Ready f leu m = HasOperand m
Ready f gtu m = HasOperand m
Ready f geu m = HasOperand m
Ready f eqf m = HasOperand m
Ready f nef m = HasOperand m
Ready f ltf m = HasOperand m
Ready f lef m = HasOperand m
Ready f gtf m = HasOperand m
Ready f gef m = HasOperand m
Ready f arg m = HasOperand m
Ready f block_copy m =
    HasOperand m × (operand_word m < 2 ^ 31) × (overlap m.r1 m.r0 (operand_word m) ≡ false)
Ready f divi m = sdiv_undefined m.r1 m.r0 ≡ false
Ready f modi m = sdiv_undefined m.r1 m.r0 ≡ false
Ready f divu m = 0 < m.r0
Ready f modu m = 0 < m.r0
Ready f lsh m = m.r0 < 32
Ready f rshi m = m.r0 < 32
Ready f rshu m = m.r0 < 32
Ready f cvfi m = IsConverted (f.to_long (float_at 0 m))
Ready f _ m = Unit
