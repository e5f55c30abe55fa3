-- ===== src/Interp/Safe.antt =====
-- The accesses of the op codes of `VM_CallInterpreted` to memory, the calls, and the whole `switch`.
use q3vm.Base.{
  ℕ, zero, suc, ◌+◌, ◌*◌, ◌^◌, ◌≤◌, ◌<◌, ◌≡◌, refl, some, true, false, arith, List, [], ◌∷◌,
  if◌then◌else◌,
}
use q3vm.Base.Mask.{bit_and_mask, two_pow_pos}
use q3vm.Base.Word.{add32, sub32, minus_one, is_neg}
use q3vm.Access.Copy.{block_copy-copies}
use q3vm.Interp.Confined.{IsConfined, IsSandboxed, HostKeeps}
use q3vm.Interp.Control.{
  read_words, entering_host, after_host, call_host, call_function, exec_call, exec_enter,
  exec_leave, exec_jump, exec_const, exec_local, exec,
}
use q3vm.Interp.Defined.{IsDefined, exec_branch-IsDefined}
use q3vm.Interp.Exec.{exec_memory, masked, exec_block_copy}
use q3vm.Interp.Machine.{SystemCall, FloatUnit, Machine, outside, popped}
use q3vm.Interp.OpStack.{IsOnStack}
use q3vm.Interp.OpStack.Codes.{exec-IsOnStack}
use q3vm.Interp.Ready.{HasTable, HostReturns, Ready, operand_word}
use q3vm.Interp.Rules.{Leaves}
use q3vm.Memory.{Block, get, read2, read4, write1, write2, write4, set, word_at, bytes4}
use q3vm.Memory.Laws.{read4-some}
use q3vm.Opcode.{
  Opcode, undef, ignore, break, enter, leave, call, push, pop, const, local, jump, arg, block_copy,
  load1, load2, load4, store1, store2, store4,
}
use q3vm.State.{State}
use native.Mathlib.Nat.{mod-lt}

module _ (k : ℕ) (m : Machine) (c : IsConfined k m) where
  masked-lt : (a : ℕ) → masked a m < 2 ^ k
  masked-lt a = rw (c.mask, bit_and_mask k a) (mod-lt a (two_pow_pos k))

  exec_block_copy-IsDefined :
      (f : FloatUnit) → Ready f block_copy m → 2 ^ k ≤ 2 ^ 30 → IsDefined (exec_block_copy m)
  unfolding exec_block_copy get
  exec_block_copy-IsDefined f (present, count, apart) small = ground (
    arith,
    block_copy-copies k (outside m) (omega arith) c.vm_mask m.image refl c.size m.r1 m.r0
        (operand_word m) (omega arith) apart,
  )

  pub exec_memory-IsDefined :
      (f : FloatUnit) (op : Opcode) → Ready f op m → 2 ^ k ≤ 2 ^ 30 → IsDefined (exec_memory f op m)
  unfolding exec_memory read4 read2 get write4 write2 write1 set
  exec_memory-IsDefined f load4 h small = ground (arith, masked-lt m.r0, c.size)
  exec_memory-IsDefined f load2 h small = ground (arith, masked-lt m.r0, c.size)
  exec_memory-IsDefined f load1 h small = ground (arith, masked-lt m.r0, c.size)
  exec_memory-IsDefined f store4 h small = ground (arith, masked-lt m.r1, c.size)
  exec_memory-IsDefined f store2 h small = ground (arith, masked-lt m.r1, c.size)
  exec_memory-IsDefined f store1 h small = ground (arith, masked-lt m.r1, c.size)
  exec_memory-IsDefined f arg h small =
      ground
        (arith, masked-lt (add32 (m.code_image.cell m.program_counter) m.program_stack), c.size)
  exec_memory-IsDefined f block_copy h small = exec_block_copy-IsDefined f h small
  exec_memory-IsDefined f op h small = exec_branch-IsDefined f op m h

read_words-some :
    (n : ℕ) (m : Block) (a : ℕ) → a + 4 * n ≤ m.size → (vs : List ℕ) × (read_words n m a ≡ some vs)
unfolding read_words
read_words-some zero m a h = ([], refl)
read_words-some (suc n) m a h =
    let (vs, rest) = read_words-some n m (a + 4) (omega arith) in
    (word_at m a ∷ vs, rw (read4-some m a (omega arith), rest))

module _ (k : ℕ) (small : 2 ^ k ≤ 2 ^ 30) (system : SystemCall) (host : HostKeeps k system)
    (returns : HostReturns k system) where
  write4-known :
      (m : Block) (a v : ℕ)
      → a + 4 ≤ m.size
      → (m' : Block) × (write4 m a v ≡ some m') × (m'.size ≡ m.size)
  unfolding write4
  write4-known m a v h = (record m { cell = bytes4 m.cell a v }, ground arith, refl)

  after_host-IsDefined :
      (m : Machine) (s : State) (r : ℕ)
      → IsSandboxed k s
      → m.program_stack + 4 ≤ 2 ^ k + 4
      → IsDefined (after_host m (s, r))
  unfolding after_host
  after_host-IsDefined m s r (base, e, size, mask) h =
      rw (e, read4-some base m.program_stack (omega arith)) tt

  call_host-IsDefined :
      (target : ℕ) (m : Machine)
      → IsConfined k m
      → m.program_stack + 68 ≤ m.image.size
      → IsDefined (call_host system target m)
  unfolding call_host
  call_host-IsDefined target m c h =
      let (image, e, size) =
        write4-known m.image (add32 m.program_stack 4) (sub32 minus_one target)
          (omega (arith, c.size)) in
      let (args, e') = read_words-some 16 image (m.program_stack + 4) (omega arith) in
      let before : IsSandboxed k (entering_host image m) =
        (image, refl, omega (arith, c.size), c.vm_mask) in
      let (s, r, e'') = returns (entering_host image m) args before in
      rw (e, e', e'')
        (after_host-IsDefined m s r (host (entering_host image m) args s r before e'')
          (omega (arith, c.size)))

  call_function-IsDefined :
      (target : ℕ) (m : Machine) → HasTable m → IsDefined (call_function target m)
  unfolding call_function get
  call_function-IsDefined target m (pointers, e, room) = ground arith

  exec_call-IsDefined :
      (f : FloatUnit) (m : Machine)
      → IsConfined k m
      → Ready f call m
      → IsDefined (exec_call system m)
  unfolding exec_call
  exec_call-IsDefined f m c (table, frame) =
      let (image, e, size) = write4-known m.image m.program_stack m.program_counter (omega arith) in
      let saved = popped 1 (record m { image = image }) in
      let confined : IsConfined k saved = record {
        mask = c.mask;
        vm_mask = c.vm_mask;
        size = omega (arith, c.size);
      } in
      rw e
        (elim (is_neg m.r0)
          as (λ b.
            IsDefined (if b then call_host system m.r0 saved else call_function m.r0 saved)) [
              | true ↦ call_host-IsDefined m.r0 saved confined (omega arith)
              | false ↦ call_function-IsDefined m.r0 saved table
            ])

  every-IsDefined :
      (f : FloatUnit) (op : Opcode) (m : Machine)
      → IsConfined k m
      → Ready f op m
      → IsDefined (exec system f op m)
  unfolding exec exec_const exec_local exec_jump exec_enter exec_leave get
  every-IsDefined f undef m c h = tt
  every-IsDefined f ignore m c h = tt
  every-IsDefined f break m c h = tt
  every-IsDefined f const m c h = ground arith
  every-IsDefined f local m c h = ground arith
  every-IsDefined f call m c h = exec_call-IsDefined f m c h
  every-IsDefined f push m c h = tt
  every-IsDefined f pop m c h = tt
  every-IsDefined f enter m c h = ground arith
  every-IsDefined f leave m c (present, frame) =
      ground (arith, read4-some m.image (add32 m.program_stack (operand_word m)) frame)
  every-IsDefined f jump m c (pointers, e, room) = ground arith
  every-IsDefined f op m c h = exec_memory-IsDefined k m c f op h small

  -- On a machine with a data section of 2 ^ k + 4 bytes, 2 ^ k at most 2 ^ 30, and the mask below
  -- 2 ^ k, with an offset into the 256 words of the op stack, and with native functions that keep
  -- the section so and return, an op code that is ready has no undefined behaviour: no access
  -- outside the data section, the code or the instruction table, and no undefined arithmetic. The
  -- offset into the op stack is then in the 256 words again, and no word behind them is written.
  -- Loads, stores and most arithmetic are always ready.
  pub exec-IsDefined :
      (f : FloatUnit) (op : Opcode) (m : Machine)
      → IsConfined k m
      → m.op_stack_ofs < 256
      → Ready f op m
      → IsDefined (exec system f op m) × Leaves (IsOnStack m.op_stack) (exec system f op m)
  exec-IsDefined f op m c on h = (
    every-IsDefined f op m c h,
    exec-IsOnStack m.op_stack system f op m (record { ofs = on; behind = λ i far. refl }),
  )
