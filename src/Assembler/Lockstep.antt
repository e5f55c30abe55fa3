-- ===== src/Assembler/Lockstep.antt =====
-- Two passes of `Assemble` over the same text: what they keep in common as long as no error is
-- reported, and how that is put together from the parts of an action.
pub mod Basic
pub mod Quiet
pub mod Clauses
pub mod Line
pub mod Passes
use q3vm.Base.{ap, ◌≤◌, ◌≡◌, ◌∙◌, none, arith, ◌⊎◌}
use q3vm.Assembler.Run.{ok, continue-eq-ok, ◌>>=◌}
use q3vm.Assembler.State.{Action, Asm}

-- The layout so far, and what is still to be read. In pass 0 no segment may be selected yet.
abbrev pub Lockstep : Asm → Asm → Type 0
Lockstep s t =
    (s.code.image_used ≡ t.code.image_used)
    × (s.data_.image_used ≡ t.data_.image_used)
    × (s.lit.image_used ≡ t.lit.image_used)
    × (s.bss.image_used ≡ t.bss.image_used)
    × (s.instruction_count ≡ t.instruction_count)
    × (s.rest ≡ t.rest)
    × (s.token ≡ t.token)
    × ((s.current_segment ≡ none) ⊎ (s.current_segment ≡ t.current_segment))

-- Errors are never taken back, and the segments stay where the pass has placed them.
abbrev pub Grows : Asm → Asm → Type 0
Grows s t =
    (s.error_count ≤ t.error_count)
    × (s.lit.segment_base ≡ t.lit.segment_base)
    × (s.bss.segment_base ≡ t.bss.segment_base)

abbrev pub AllGrow : {A : Type 0} → Action A → Type 0
AllGrow {A} m = (s : Asm) (a : A) (s' : Asm) → m s ≡ ok (a, s') → Grows s s'

-- Two actions, with a relation of their results.
pub record Lock {A : Type 0} (V : A → A → Type 0) (m n : Action A) : Type 0 where
  pub left : AllGrow m
  pub right : AllGrow n
  pub together :
      (s t : Asm) (a b : A) (s' t' : Asm)
      → Lockstep s t
      → m s ≡ ok (a, s')
      → n t ≡ ok (b, t')
      → s'.error_count ≤ s.error_count
      → t'.error_count ≤ t.error_count
      → Lockstep s' t' × V a b

abbrev pub Any : {A : Type 0} → A → A → Type 0
Any a b = Unit {0}

abbrev pub Same : {A : Type 0} → A → A → Type 0
Same a b = a ≡ b

grow :
    {A B : Type 0} (m : Action A) (k : A → Action B)
    → AllGrow m
    → ((a : A) → AllGrow (k a))
    → AllGrow (m >>= k)
unfolding ◌>>=◌
grow m k hm hk s c s' e =
    let (a, s1, e1, e2) = continue-eq-ok (m s) k e in
    let (x1, y1, z1) = hm s a s1 e1 in
    let (x2, y2, z2) = hk a s1 c s' e2 in (omega arith, y1 ∙ y2, z1 ∙ z2)

-- One action behind another, on results that are the same, or on any.
pub then-Same :
    {A B : Type 0} {W : B → B → Type 0} {m n : Action A} {k l : A → Action B}
    → Lock Same m n
    → ((a : A) → Lock W (k a) (l a))
    → Lock W (m >>= k) (n >>= l)
unfolding ◌>>=◌
then-Same {W = W} {m = m} {n = n} {k = k} {l = l} h hk = record {
  left = grow m k h.left (λ a. (hk a).left);
  right = grow n l h.right (λ a. (hk a).right);
  together = λ s t c d s' t' r e f i j.
      let (a, s1, e1, e2) = continue-eq-ok (m s) k e in
      let (b, t1, f1, f2) = continue-eq-ok (n t) l f in
      let (x1, _, _) = (hk a).left s1 c s' e2 in
      let (y1, _, _) = (hk b).right t1 d t' f2 in
      let (x0, _, _) = h.left s a s1 e1 in
      let (y0, _, _) = h.right t b t1 f1 in
      let (r1, p) = h.together s t a b s1 t1 r e1 f1 (omega arith) (omega arith) in
      (hk a).together s1 t1 c d s' t' r1 e2 (ap (λ x. l x t1) p ∙ f2) (omega arith) (omega arith);
}

pub then-Any :
    {A B : Type 0} {V : A → A → Type 0} {W : B → B → Type 0} {m n : Action A} {k l : A → Action B}
    → Lock V m n
    → ((a b : A) → Lock W (k a) (l b))
    → Lock W (m >>= k) (n >>= l)
unfolding ◌>>=◌
then-Any {m = m} {n = n} {k = k} {l = l} h hk = record {
  left = grow m k h.left (λ a. (hk a a).left);
  right = grow n l h.right (λ a. (hk a a).right);
  together = λ s t c d s' t' r e f i j.
      let (a, s1, e1, e2) = continue-eq-ok (m s) k e in
      let (b, t1, f1, f2) = continue-eq-ok (n t) l f in
      let (x1, _, _) = (hk a b).left s1 c s' e2 in
      let (y1, _, _) = (hk a b).right t1 d t' f2 in
      let (x0, _, _) = h.left s a s1 e1 in
      let (y0, _, _) = h.right t b t1 f1 in
      let (r1, _) = h.together s t a b s1 t1 r e1 f1 (omega arith) (omega arith) in
      (hk a b).together s1 t1 c d s' t' r1 e2 f2 (omega arith) (omega arith);
}
