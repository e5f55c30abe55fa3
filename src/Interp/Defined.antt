-- ===== src/Interp/Defined.antt =====
-- The jumps and the arithmetic of `VM_CallInterpreted`: when they are defined.
use q3vm.Base.{ℕ, ◌<◌, ◌≡◌, Option, none, some, Bool, false, arith}
use q3vm.Base.Word.{sdiv_undefined, sdiv, smod, udiv, umod, shl, shr, sar}
use q3vm.Interp.Exec.{exec_float, exec_int, exec_branch}
use q3vm.Interp.Machine.{FloatUnit, Machine, Flow, branch, unary, binary}
use q3vm.Interp.Ready.{HasOperand, Ready, IsConverted}
use q3vm.Memory.{get}
use q3vm.Opcode.{
  Opcode, eq, ne, lti, lei, gti, gei, ltu, leu, gtu, geu, eqf, nef, ltf, lef, gtf, gef, sex8, sex16,
  negi, add, sub, divi, divu, modi, modu, muli, mulu, band, bor, bxor, bcom, lsh, rshi, rshu, negf,
  addf, subf, divf, mulf, cvif, cvfi,
}

abbrev pub IsDefined : Option Flow → Type 0
IsDefined none = ⊥
IsDefined (some flow) = Unit

branch-IsDefined : (m : Machine) (b : Bool) → HasOperand m → IsDefined (branch b m)
unfolding branch get
branch-IsDefined m b h = ground arith

unary-IsDefined : (m : Machine) (r : Option ℕ) → IsConverted r → IsDefined (unary r m)
unfolding unary
unary-IsDefined m (some v) h = tt
unary-IsDefined m none h = h

binary-IsDefined : (m : Machine) (r : Option ℕ) → IsConverted r → IsDefined (binary r m)
unfolding binary
binary-IsDefined m (some v) h = tt
binary-IsDefined m none h = h

exec_float-IsDefined :
    (f : FloatUnit) (op : Opcode) (m : Machine) → Ready f op m → IsDefined (exec_float f op m)
unfolding exec_float
exec_float-IsDefined f eqf m h = branch-IsDefined m _ h
exec_float-IsDefined f nef m h = branch-IsDefined m _ h
exec_float-IsDefined f ltf m h = branch-IsDefined m _ h
exec_float-IsDefined f lef m h = branch-IsDefined m _ h
exec_float-IsDefined f gtf m h = branch-IsDefined m _ h
exec_float-IsDefined f gef m h = branch-IsDefined m _ h
exec_float-IsDefined f negf m h = unary-IsDefined m _ tt
exec_float-IsDefined f addf m h = binary-IsDefined m _ tt
exec_float-IsDefined f subf m h = binary-IsDefined m _ tt
exec_float-IsDefined f divf m h = binary-IsDefined m _ tt
exec_float-IsDefined f mulf m h = binary-IsDefined m _ tt
exec_float-IsDefined f cvif m h = unary-IsDefined m _ tt
exec_float-IsDefined f cvfi m h = unary-IsDefined m _ h
exec_float-IsDefined f _ m h = tt

sdiv-IsConverted :
    (a b : ℕ) → sdiv_undefined a b ≡ false → IsConverted (sdiv a b) × IsConverted (smod a b)
unfolding sdiv smod
sdiv-IsConverted a b h = (rw h tt, rw h tt)

udiv-IsConverted : (a b : ℕ) → 0 < b → IsConverted (udiv a b) × IsConverted (umod a b)
unfolding udiv umod
udiv-IsConverted a b h = ground arith

shift-IsConverted :
    (a k : ℕ) → k < 32 → IsConverted (shl a k) × IsConverted (shr a k) × IsConverted (sar a k)
unfolding shl shr sar
shift-IsConverted a k h = ground arith

exec_int-IsDefined :
    (f : FloatUnit) (op : Opcode) (m : Machine) → Ready f op m → IsDefined (exec_int f op m)
unfolding exec_int
exec_int-IsDefined f negi m h = unary-IsDefined m _ tt
exec_int-IsDefined f add m h = binary-IsDefined m _ tt
exec_int-IsDefined f sub m h = binary-IsDefined m _ tt
exec_int-IsDefined f divi m h = binary-IsDefined m _ (sdiv-IsConverted m.r1 m.r0 h).0
exec_int-IsDefined f divu m h = binary-IsDefined m _ (udiv-IsConverted m.r1 m.r0 h).0
exec_int-IsDefined f modi m h = binary-IsDefined m _ (sdiv-IsConverted m.r1 m.r0 h).1
exec_int-IsDefined f modu m h = binary-IsDefined m _ (udiv-IsConverted m.r1 m.r0 h).1
exec_int-IsDefined f muli m h = binary-IsDefined m _ tt
exec_int-IsDefined f mulu m h = binary-IsDefined m _ tt
exec_int-IsDefined f band m h = binary-IsDefined m _ tt
exec_int-IsDefined f bor m h = binary-IsDefined m _ tt
exec_int-IsDefined f bxor m h = binary-IsDefined m _ tt
exec_int-IsDefined f bcom m h = unary-IsDefined m _ tt
exec_int-IsDefined f lsh m h = binary-IsDefined m _ (shift-IsConverted m.r1 m.r0 h).0
exec_int-IsDefined f rshi m h = binary-IsDefined m _ (shift-IsConverted m.r1 m.r0 h).2
exec_int-IsDefined f rshu m h = binary-IsDefined m _ (shift-IsConverted m.r1 m.r0 h).1
exec_int-IsDefined f sex8 m h = unary-IsDefined m _ tt
exec_int-IsDefined f sex16 m h = unary-IsDefined m _ tt
exec_int-IsDefined f op m h = exec_float-IsDefined f op m h

pub exec_branch-IsDefined :
    (f : FloatUnit) (op : Opcode) (m : Machine) → Ready f op m → IsDefined (exec_branch f op m)
unfolding exec_branch
exec_branch-IsDefined f eq m h = branch-IsDefined m _ h
exec_branch-IsDefined f ne m h = branch-IsDefined m _ h
exec_branch-IsDefined f lti m h = branch-IsDefined m _ h
exec_branch-IsDefined f lei m h = branch-IsDefined m _ h
exec_branch-IsDefined f gti m h = branch-IsDefined m _ h
exec_branch-IsDefined f gei m h = branch-IsDefined m _ h
exec_branch-IsDefined f ltu m h = branch-IsDefined m _ h
exec_branch-IsDefined f leu m h = branch-IsDefined m _ h
exec_branch-IsDefined f gtu m h = branch-IsDefined m _ h
exec_branch-IsDefined f geu m h = branch-IsDefined m _ h
exec_branch-IsDefined f op m h = exec_int-IsDefined f op m h
