-- ===== src/Interp/Confined.antt =====
-- The data section while the interpreter runs: a power of two, the mask below it and four bytes
-- more.
use q3vm.Base.{ℕ, ◌+◌, ◌-◌, ◌^◌, ◌≡◌, some, List}
use q3vm.Interp.Machine.{SystemCall, Machine}
use q3vm.Memory.{Block}
use q3vm.State.{State}

-- The shape of the data section, in the locals and behind `vm_t`.
pub record IsConfined (k : ℕ) (m : Machine) : Type 0 where
  pub mask : m.data_mask ≡ 2 ^ k - 1
  pub vm_mask : m.vm.data_mask ≡ 2 ^ k - 1
  pub size : m.image.size ≡ 2 ^ k + 4

abbrev pub IsSandboxed : ℕ → State → Type 0
IsSandboxed k s =
    (base : Block) × (s.vm.data_base ≡ some base)
    × (base.size ≡ 2 ^ k + 4)
    × (s.vm.data_mask ≡ 2 ^ k - 1)

-- What the interpreter relies on: a native function that returns leaves a section of that shape.
abbrev pub HostKeeps : ℕ → SystemCall → Type 0
HostKeeps k system =
    (s : State) (args : List ℕ) (s' : State) (r : ℕ)
    → IsSandboxed k s
    → system s args ≡ some (s', r)
    → IsSandboxed k s'
