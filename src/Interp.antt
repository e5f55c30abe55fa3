-- ===== src/Interp.antt =====
-- `VM_CallInterpreted` and `VM_Call` of src/vm/vm.c.
pub mod Machine
pub mod Exec
pub mod Control
pub mod Run
pub mod Rules
pub mod Cache
pub mod Confined
pub mod OpStack
pub mod Ready
pub mod Defined
pub mod Safe
pub mod Fuel
pub mod Entry
pub mod Constant
pub mod Escape
