-- ===== src/Assembler/Bytes.antt =====
-- The images of q3asm/q3asm.c are arrays of `byte`: every action leaves bytes in them.
pub mod All
pub mod File
use q3vm.Base.{◌%◌, arith, ◌≡◌, ◌<◌, ℕ}
use q3vm.Base.Word.{add32}
use q3vm.Assembler.Directives.{set_used}
use q3vm.Assembler.Run.{ok, continue-eq-ok, ◌>>=◌}
use q3vm.Assembler.State.{
  Segment, SegmentName, with_segment, Action, emit_int, emit_byte, Asm, segment_of, codeseg,
  dataseg, litseg, bssseg, jtrgseg,
}
use q3vm.Memory.{update, bytes4}
use mathlib.Core.Path.{subst}

abbrev pub Below256 : (ℕ → ℕ) → Type 0
Below256 f = (q : ℕ) → f q < 256

pub record AreBytes (s : Asm) : Type 0 where
  pub code_bytes_ : Below256 s.code.image
  pub data_bytes : Below256 s.data_.image
  pub lit_bytes : Below256 s.lit.image
  pub bss_bytes : Below256 s.bss.image
  pub jtrg_bytes : Below256 s.jtrg.image

abbrev pub SameImages : Asm → Asm → Type 0
SameImages s t =
    (s.code.image ≡ t.code.image)
    × (s.data_.image ≡ t.data_.image)
    × (s.lit.image ≡ t.lit.image)
    × (s.bss.image ≡ t.bss.image)
    × (s.jtrg.image ≡ t.jtrg.image)

pub same-AreBytes : (s t : Asm) → SameImages s t → AreBytes s → AreBytes t
same-AreBytes s t (a, b, c, d, e) h = record {
  code_bytes_ = subst Below256 a h.code_bytes_;
  data_bytes = subst Below256 b h.data_bytes;
  lit_bytes = subst Below256 c h.lit_bytes;
  bss_bytes = subst Below256 d h.bss_bytes;
  jtrg_bytes = subst Below256 e h.jtrg_bytes;
}

abbrev pub StayBytes : (A : Type 0) → Action A → Type 0
StayBytes A m = (s : Asm) (a : A) (s' : Asm) → m s ≡ ok (a, s') → AreBytes s → AreBytes s'

abbrev pub KeepImages : {A : Type 0} → Action A → Type 0
KeepImages {A} m = (s : Asm) (a : A) (s' : Asm) → m s ≡ ok (a, s') → SameImages s s'

pub stay : {A : Type 0} {m : Action A} → KeepImages m → StayBytes A m
stay h s a s' e = same-AreBytes s s' (h s a s' e)

pub chain-StayBytes :
    (A B : Type 0) (m : Action A) (k : A → Action B)
    → StayBytes A m
    → ((a : A) → StayBytes B (k a))
    → StayBytes B (m >>= k)
unfolding ◌>>=◌
chain-StayBytes A B m k h i s b s' e bytes =
    let (a, s1, e1, e2) = continue-eq-ok (m s) k e in i a s1 b s' e2 (h s a s1 e1 bytes)

pub update-Below256 : (f : ℕ → ℕ) (a v : ℕ) → Below256 f → Below256 (update f a (v % 256))
update-Below256 f a v h q = ground (arith, h q)

pub bytes4-Below256 : (f : ℕ → ℕ) (a v : ℕ) → Below256 f → Below256 (bytes4 f a v)
bytes4-Below256 f a v h q = ground (arith, h q)

-- An image that is replaced by one of bytes.
with_segment-AreBytes :
    (name : SegmentName) (g : Segment) (s : Asm)
    → Below256 g.image
    → AreBytes s
    → AreBytes (with_segment name g s)
unfolding with_segment
with_segment-AreBytes codeseg g s b h = record {
  code_bytes_ = b;
  data_bytes = h.data_bytes;
  lit_bytes = h.lit_bytes;
  bss_bytes = h.bss_bytes;
  jtrg_bytes = h.jtrg_bytes;
}
with_segment-AreBytes dataseg g s b h = record {
  code_bytes_ = h.code_bytes_;
  data_bytes = b;
  lit_bytes = h.lit_bytes;
  bss_bytes = h.bss_bytes;
  jtrg_bytes = h.jtrg_bytes;
}
with_segment-AreBytes litseg g s b h = record {
  code_bytes_ = h.code_bytes_;
  data_bytes = h.data_bytes;
  lit_bytes = b;
  bss_bytes = h.bss_bytes;
  jtrg_bytes = h.jtrg_bytes;
}
with_segment-AreBytes bssseg g s b h = record {
  code_bytes_ = h.code_bytes_;
  data_bytes = h.data_bytes;
  lit_bytes = h.lit_bytes;
  bss_bytes = b;
  jtrg_bytes = h.jtrg_bytes;
}
with_segment-AreBytes jtrgseg g s b h = record {
  code_bytes_ = h.code_bytes_;
  data_bytes = h.data_bytes;
  lit_bytes = h.lit_bytes;
  bss_bytes = h.bss_bytes;
  jtrg_bytes = b;
}

segment_of-Below256 :
    (name : SegmentName) (s : Asm) → AreBytes s → Below256 (segment_of name s).image
unfolding segment_of
segment_of-Below256 codeseg s h = h.code_bytes_
segment_of-Below256 dataseg s h = h.data_bytes
segment_of-Below256 litseg s h = h.lit_bytes
segment_of-Below256 bssseg s h = h.bss_bytes
segment_of-Below256 jtrgseg s h = h.jtrg_bytes

pub emit_byte-StayBytes : (name : SegmentName) (v : ℕ) → StayBytes (Unit {0}) (emit_byte name v)
unfolding emit_byte
emit_byte-StayBytes name v s a s' e h =
    let g = segment_of name s in
    let g' : Segment = record g {
      image = update g.image g.image_used (v % 256);
      image_used = add32 g.image_used 1;
    } in
    let same : with_segment name g' s ≡ s' = ground arith in
    subst AreBytes same (
      with_segment-AreBytes name g' s
        (update-Below256 g.image g.image_used v (segment_of-Below256 name s h)) h)

pub emit_int-StayBytes : (name : SegmentName) (v : ℕ) → StayBytes (Unit {0}) (emit_int name v)
unfolding emit_int
emit_int-StayBytes name v s a s' e h =
    let g = segment_of name s in
    let g' : Segment = record g {
      image = bytes4 g.image g.image_used v;
      image_used = add32 g.image_used 4;
    } in
    let same : with_segment name g' s ≡ s' = ground arith in
    subst AreBytes same (
      with_segment-AreBytes name g' s
        (bytes4-Below256 g.image g.image_used v (segment_of-Below256 name s h)) h)

pub set_used-KeepImages : (f : ℕ → ℕ) (name : SegmentName) → KeepImages (set_used f name)
unfolding set_used with_segment segment_of
set_used-KeepImages f codeseg s a s' e = ground arith
set_used-KeepImages f dataseg s a s' e = ground arith
set_used-KeepImages f litseg s a s' e = ground arith
set_used-KeepImages f bssseg s a s' e = ground arith
set_used-KeepImages f jtrgseg s a s' e = ground arith
