-- ===== src/Interp/Fuel.antt =====
-- The bound on the rounds of `VM_CallInterpreted` that the model has and the code has not.
use q3vm.Base.{
  ℕ, zero, suc, ◌+◌, ◌≡◌, refl, Option, none, some, arith, List, Bool-cases, inl, inr, ◌∙◌, ap,
  ◌>>=◌, >>=-eq-some,
}
use q3vm.Base.Word.{slt}
use q3vm.Interp.Machine.{SystemCall, FloatUnit, Machine, Flow, next, done, stopped}
use q3vm.Interp.Run.{
  deeper, shallower, step, run, call_interpreted, vm_call, Outcome, returned, leave_loop,
  out_of_fuel, entry_machine,
}
use q3vm.State.{State}
use Prim.Native.Nat.add

-- The loop was left.
abbrev pub HasLeft : Flow → Type 0
HasLeft (next m) = ⊥
HasLeft (done m) = Unit
HasLeft (stopped m) = Unit

module _ (system : SystemCall) (f : FloatUnit) where
  pub run_more :
      (fuel more : ℕ) (m : Machine) {flow : Flow}
      → HasLeft flow
      → run system f fuel m ≡ some flow
      → run system f (fuel + more) m ≡ some flow
  unfolding run
  run_more zero more m {flow} left e = absurd (stays m flow left e)
    where
      stays : (m : Machine) (flow : Flow) → HasLeft flow → some (next m) ≡ some flow → ⊥
      stays m (next m') h e = h
      stays m (done m') h e = cc
      stays m (stopped m') h e = cc
  run_more (suc fuel) more m {flow} left e =
      rw add.suc (go (step system f m) (λ m' e'. run_more fuel more m' left e') e)
    where
      go :
          (first : Option Flow)
          → ((m' : Machine)
              → run system f fuel m' ≡ some flow
              → run system f (fuel + more) m' ≡ some flow)
          → (first >>= λ x. elim x [
            | next m' ↦ run system f fuel m'
            | done m' ↦ some (done m')
            | stopped m' ↦ some (stopped m')
          ])
            ≡ some flow
          → (first >>= λ x. elim x [
            | next m' ↦ run system f (fuel + more) m'
            | done m' ↦ some (done m')
            | stopped m' ↦ some (stopped m')
          ])
            ≡ some flow
      go none ih e = e
      go (some (next m')) ih e = ih m' e
      go (some (done m')) ih e = e
      go (some (stopped m')) ih e = e

left_of :
    (top : ℕ) (flow : Flow) {r : ℕ} {s : State}
    → some (leave_loop top flow) ≡ some (returned r s)
    → HasLeft flow
left_of top (next m) e = cc
left_of top (done m) e = tt
left_of top (stopped m) e = tt

call_more :
    (system : SystemCall) (f : FloatUnit) (fuel more : ℕ) (junk : ℕ → ℕ) (args : List ℕ) (s : State)
    {r : ℕ} {s' : State}
    → call_interpreted system f fuel junk args s ≡ some (returned r s')
    → call_interpreted system f (fuel + more) junk args s ≡ some (returned r s')
unfolding call_interpreted
call_more system f fuel more junk args s e =
    let (m, em, e1) = >>=-eq-some (entry_machine junk args s) _ e in
    let (flow, ef, e2) = >>=-eq-some (run system f fuel m) _ e1 in
    let left = left_of s.vm.program_stack flow e2 in
    rw (em, run_more system f fuel more m left ef) e2

returned_of :
    (o : Outcome) {r : ℕ} {s : State}
    → some (shallower o) ≡ some (returned r s)
    → (r' : ℕ) × (s' : State) × (o ≡ returned r' s')
returned_of (returned r' s') e = (r', s', refl)
returned_of out_of_fuel e = cc

-- A call that returns with some fuel returns the same with more of it: the result and the state
-- that it leaves do not depend on the bound of the model.
vm_call_more :
    (system : SystemCall) (f : FloatUnit) (fuel more : ℕ) (junk : ℕ → ℕ) (args : List ℕ) (s : State)
    {r : ℕ} {s' : State}
    → vm_call system f fuel junk args s ≡ some (returned r s')
    → vm_call system f (fuel + more) junk args s ≡ some (returned r s')
unfolding vm_call
vm_call_more system f fuel more junk args s {r} {s'} e =
    elim (Bool-cases (slt s.vm.code_length 1)) [
      | inl unloaded ↦ ground arith
      | inr loaded ↦
          let e0 : (call_interpreted system f fuel junk args (deeper s) >>= λ o. some (shallower o))
              ≡ some (returned r s') =
            rw loaded at e in
          let (o, eo, e1) =
            >>=-eq-some (call_interpreted system f fuel junk args (deeper s)) _ e0 in
          let (r1, s1, e2) = returned_of o e1 in
          rw (loaded, call_more system f fuel more junk args (deeper s) (eo ∙ ap some e2))
            (rw e2 at e1)
    ]
