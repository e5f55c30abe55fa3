-- ===== src/Interp/Entry.antt =====
-- The frame that `VM_Call` builds for `vmMain`.
use q3vm.Base.{
  ℕ, zero, suc, ap, ◌+◌, ◌*◌, ◌^◌, ◌≤◌, ◌<◌, ◌≡◌, refl, ◌∙◌, some, arith, List, [], ◌∷◌, length,
}
use q3vm.Base.Word.{sub32, minus_one}
use q3vm.Interp.Control.{read_words}
use q3vm.Interp.Machine.{Machine}
use q3vm.Interp.Run.{
  entry_start, beef, write_words, entry_image, entry_machine, entry_frame, max_vmmain_args,
}
use q3vm.Memory.{Block, read4, write4, word_at, bytes4, little_endian_to_host}
use q3vm.Memory.Laws.{read4-some, word_at-bytes4}
use q3vm.State.{State}
use mathlib.Core.Path.{subst}

abbrev pub AllWords : List ℕ → Type 0
AllWords [] = Unit
AllWords (v ∷ vs) = (v < 2 ^ 32) × AllWords vs

-- `m'` is `m` but for the cells from `a` on.
pub record SameBelow (a : ℕ) (m m' : Block) : Type 0 where
  pub size : m'.size ≡ m.size
  pub cells : (q : ℕ) → q < a → m'.cell q ≡ m.cell q

word_at-below : (a p : ℕ) (m m' : Block) → SameBelow a m m' → p + 4 ≤ a → word_at m' p ≡ word_at m p
unfolding little_endian_to_host
word_at-below a p m m' s h =
    ground (arith, s.cells p, s.cells (p + 1), s.cells (p + 2), s.cells (p + 3))

-- The words written are read back, and nothing below them changes.
pub write_words_lem :
    (vs : List ℕ) (a : ℕ) (m : Block)
    → AllWords vs
    → a + 4 * length vs ≤ m.size
    → (m' : Block) × (write_words vs a m ≡ some m')
      × SameBelow a m m'
      × (read_words (length vs) m' a ≡ some vs)
unfolding write_words read_words
write_words_lem [] a m all room = (m, refl, record { size = refl; cells = λ q h. refl }, refl)
write_words_lem (v ∷ vs) a m (hv, all) room =
    let m1 : Block = record m { cell = bytes4 m.cell a v } in
    let stored : write4 m a v ≡ some m1 = unfold write4 in ground arith in
    let (m', run, same, back) = write_words_lem vs (a + 4) m1 all (omega arith) in
    let first : read4 m' a ≡ some v =
      read4-some m' a (omega (arith, same.size))
      ∙ ap some (word_at-below (a + 4) a m1 m' same (omega arith) ∙ word_at-bytes4 m a v hv) in
    (
      m',
      rw stored run,
      record { size = same.size; cells = λ q h. ground (arith, same.cells q) },
      rw (first, back),
    )

read_words-above :
    (n a : ℕ) (m m' : Block)
    → m'.size ≡ m.size
    → ((q : ℕ) → a ≤ q → m'.cell q ≡ m.cell q)
    → read_words n m' a ≡ read_words n m a
unfolding read_words
read_words-above zero a m m' size same = refl
read_words-above (suc n) a m m' size same =
    let here : read4 m' a ≡ read4 m a =
      unfold read4 little_endian_to_host in
      ground (arith, same a, same (a + 1), same (a + 2), same (a + 3)) in
    rw (here, read_words-above n (a + 4) m m' size (λ q h. same q (omega arith)))

-- The block with the return address and the word above it.
abbrev framed : ℕ → Block → Block
framed top m = record m { cell = bytes4 (bytes4 m.cell (top + 4) 0) top minus_one }

module _ (args : List ℕ) (top : ℕ) (base : Block) (room : top + entry_frame ≤ base.size)
    (low : top + entry_frame < 2 ^ 32) where
  entry_image-framed :
      (m : Block)
      → write_words args (top + 8) base ≡ some m
      → m.size ≡ base.size
      → entry_image args top base ≡ some (framed top m)
  unfolding entry_image write4
  entry_image-framed m run size = ground (arith, run)

  framed-reads :
      (m : Block)
      → m.size ≡ base.size
      → (read4 (framed top m) top ≡ some minus_one)
        × (read4 (framed top m) (top + 4) ≡ some 0)
        × (read_words max_vmmain_args (framed top m) (top + 8)
            ≡ read_words max_vmmain_args m (top + 8))
  unfolding read4 little_endian_to_host
  framed-reads m size = (
    ground arith,
    ground arith,
    read_words-above max_vmmain_args (top + 8) m (framed top m) refl (λ q h. ground arith),
  )

  pub entry_image-frame :
      length args ≡ max_vmmain_args
      → AllWords args
      → (m : Block) × (entry_image args top base ≡ some m)
        × (m.size ≡ base.size)
        × (read4 m top ≡ some minus_one)
        × (read4 m (top + 4) ≡ some 0)
        × (read_words max_vmmain_args m (top + 8) ≡ some args)
  entry_image-frame count all =
      let (m1, run, same, back) = write_words_lem args (top + 8) base all (omega arith) in
      let (r1, r2, r3) = framed-reads m1 same.size in
      (
        framed top m1,
        entry_image-framed m1 run same.size,
        same.size,
        r1,
        r2,
        r3 ∙ subst (λ n. read_words n m1 (top + 8) ≡ some args) count back,
      )

-- The program stack leaves room for the frame of `vmMain`, below the top of the data section.
pub record HasEntryRoom (s : State) (base : Block) : Type 0 where
  pub above : entry_frame ≤ s.vm.program_stack
  pub within : s.vm.program_stack ≤ base.size
  pub word : s.vm.program_stack < 2 ^ 32

-- `VM_Call` builds the frame inside the data section: the return address -1, which ends the loop,
-- at the new top of the program stack, 0 above it, and from 8 bytes above it on the command and the
-- twelve further arguments, as `vmMain` reads them. The loop starts at the first word of the code
-- with an empty op stack.
pub entry_machine-frame :
    (junk : ℕ → ℕ) (args : List ℕ) (s : State) (base code : Block)
    → s.vm.data_base ≡ some base
    → s.vm.code_base ≡ some code
    → HasEntryRoom s base
    → length args ≡ max_vmmain_args
    → AllWords args
    → (m : Machine) × (entry_machine junk args s ≡ some m)
      × (m.program_stack + entry_frame ≡ s.vm.program_stack)
      × (m.image.size ≡ base.size)
      × (read4 m.image m.program_stack ≡ some minus_one)
      × (read4 m.image (m.program_stack + 4) ≡ some 0)
      × (read_words max_vmmain_args m.image (m.program_stack + 8) ≡ some args)
      × (m.program_counter ≡ 0)
      × (m.op_stack_ofs ≡ 0)
      × (m.op_stack 0 ≡ beef)
unfolding entry_machine
entry_machine-frame junk args s base code e e' room count all =
    let top = sub32 s.vm.program_stack entry_frame in
    let is_top : top + entry_frame ≡ s.vm.program_stack = omega (arith, room.above, room.word) in
    let (image, run, size, r1, r2, r3) =
      entry_image-frame args top base (omega (arith, room.within)) (omega (arith, room.word)) count
        all in
    (entry_start junk s code image, entered run, is_top, size, r1, r2, r3, refl, refl, refl)
  where
    entered :
        {image : Block}
        → entry_image args (sub32 s.vm.program_stack entry_frame) base ≡ some image
        → entry_machine junk args s ≡ some (entry_start junk s code image)
    entered run = ground (arith, e, e', run)
