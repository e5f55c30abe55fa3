-- ===== src/Interp/Rules.antt =====
-- What holds of the shared moves holds of every op code of the sections that only use these.
use q3vm.Base.{ℕ, Option, none, some, Bool}
use q3vm.Interp.Exec.{exec_float, exec_int, exec_branch}
use q3vm.Interp.Machine.{FloatUnit, Machine, Flow, stop_with, unary, binary, branch}
use q3vm.Opcode.{
  Opcode, eq, ne, lti, lei, gti, gei, ltu, leu, gtu, geu, eqf, nef, ltf, lef, gtf, gef, sex8, sex16,
  negi, add, sub, divi, divu, modi, modu, muli, mulu, band, bor, bxor, bcom, lsh, rshi, rshu, negf,
  addf, subf, divf, mulf, cvif, cvfi,
}
use q3vm.State.{bad_instruction}

module _ (f : FloatUnit) (m : Machine) (P : Option Flow → Type 0)
    (branches : (b : Bool) → P (branch b m)) (unaries : (r : Option ℕ) → P (unary r m))
    (binaries : (r : Option ℕ) → P (binary r m)) (stops : P (stop_with bad_instruction m)) where
  exec_float-rule : (op : Opcode) → P (exec_float f op m)
  unfolding exec_float
  exec_float-rule eqf = branches _
  exec_float-rule nef = branches _
  exec_float-rule ltf = branches _
  exec_float-rule lef = branches _
  exec_float-rule gtf = branches _
  exec_float-rule gef = branches _
  exec_float-rule negf = unaries _
  exec_float-rule addf = binaries _
  exec_float-rule subf = binaries _
  exec_float-rule divf = binaries _
  exec_float-rule mulf = binaries _
  exec_float-rule cvif = unaries _
  exec_float-rule cvfi = unaries _
  exec_float-rule _ = stops

  exec_int-rule : (op : Opcode) → P (exec_int f op m)
  unfolding exec_int
  exec_int-rule negi = unaries _
  exec_int-rule add = binaries _
  exec_int-rule sub = binaries _
  exec_int-rule divi = binaries _
  exec_int-rule divu = binaries _
  exec_int-rule modi = binaries _
  exec_int-rule modu = binaries _
  exec_int-rule muli = binaries _
  exec_int-rule mulu = binaries _
  exec_int-rule band = binaries _
  exec_int-rule bor = binaries _
  exec_int-rule bxor = binaries _
  exec_int-rule bcom = unaries _
  exec_int-rule lsh = binaries _
  exec_int-rule rshi = binaries _
  exec_int-rule rshu = binaries _
  exec_int-rule sex8 = unaries _
  exec_int-rule sex16 = unaries _
  exec_int-rule op = exec_float-rule op

  pub exec_branch-rule : (op : Opcode) → P (exec_branch f op m)
  unfolding exec_branch
  exec_branch-rule eq = branches _
  exec_branch-rule ne = branches _
  exec_branch-rule lti = branches _
  exec_branch-rule lei = branches _
  exec_branch-rule gti = branches _
  exec_branch-rule gei = branches _
  exec_branch-rule ltu = branches _
  exec_branch-rule leu = branches _
  exec_branch-rule gtu = branches _
  exec_branch-rule geu = branches _
  exec_branch-rule op = exec_int-rule op

-- What a result says of the machine that goes on, and of any machine that it leaves.
abbrev pub WhenNext : (Machine → Type 0) → Option Flow → Type 0
WhenNext P none = Unit
WhenNext P (some (Flow.next m)) = P m
WhenNext P (some (Flow.done m)) = Unit
WhenNext P (some (Flow.stopped m)) = Unit

abbrev pub Leaves : (Machine → Type 0) → Option Flow → Type 0
Leaves P none = Unit
Leaves P (some (Flow.next m)) = P m
Leaves P (some (Flow.done m)) = P m
Leaves P (some (Flow.stopped m)) = P m
