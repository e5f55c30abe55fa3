-- ===== src/Assembler/OpTable.antt =====
-- The search of `optable` in q3asm/q3asm.c is a search of `sourceOps` from its start.
use q3vm.Base.{
  ℕ, ap, ◌≡◌, refl, ◌∙◌, Option, none, some, arith, Bool, true, false, ◌==◌, ◌&&◌, if◌then◌else◌,
  List, [], ◌∷◌, ◌++◌, sym,
}
use q3vm.Assembler.Hash.{chain_add, hash_string, bucket_of, hash_from}
use q3vm.Assembler.Indexed.{text_eq-eq, is_bucket}
use q3vm.Assembler.Opcodes.{
  search_in, init_optable, find_op, search_op, op_buckets, source_ops, SourceOp, add_ops,
}
use q3vm.Assembler.Text.{text_eq}
use mathlib.Core.List.{append-nil}

unfoldable pub op_named : List ℕ → List SourceOp → Option SourceOp
unfolding text_eq
op_named token [] = none
op_named token (op ∷ ops) = if text_eq token op.op_name then some op else op_named token ops

unfoldable ops_in : ℕ → ℕ → List SourceOp → List SourceOp
unfolding bucket_of
ops_in buckets b [] = []
ops_in buckets b (op ∷ ops) =
    let more = ops_in buckets b ops in
    if is_bucket b (bucket_of buckets op.op_hash) then op ∷ more else more

unfoldable all_hashed : List SourceOp → Bool
unfolding hash_from
all_hashed [] = true
all_hashed (op ∷ ops) = (op.op_hash == hash_string op.op_name) && all_hashed ops

abbrev has_bucket : Option ℕ → Bool
has_bucket none = false
has_bucket (some k) = true

has_bucket-some : (o : Option ℕ) → has_bucket o ≡ true → (k : ℕ) × (o ≡ some k)
has_bucket-some none h = absurd (ground arith)
has_bucket-some (some k) h = (k, refl)

unfoldable all_placed : ℕ → List SourceOp → Bool
unfolding bucket_of
all_placed buckets [] = true
all_placed buckets (op ∷ ops) = has_bucket (bucket_of buckets op.op_hash) && all_placed buckets ops

source_ops-hashed : all_hashed source_ops ≡ true
unfolding all_hashed
source_ops-hashed = refl

source_ops-placed : all_placed op_buckets source_ops ≡ true
unfolding all_placed hash_from
source_ops-placed = refl

append_one :
    (xs : List SourceOp) (op : SourceOp) (ops : List SourceOp)
    → (xs ++ (op ∷ [])) ++ ops ≡ xs ++ (op ∷ ops)
append_one [] op ops = refl
append_one (x ∷ xs) op ops = ap (λ (l : List SourceOp). x ∷ l) (append_one xs op ops)

either-append :
    (c : Bool) (xs : List SourceOp) (op : SourceOp) (ops : List SourceOp)
    → (if c then xs ++ op ∷ [] else xs) ++ ops ≡ xs ++ (if c then op ∷ ops else ops)
either-append true xs op ops = append_one xs op ops
either-append false xs op ops = refl

abbrev IsTable : ℕ → List SourceOp → (ℕ → List SourceOp) → (ℕ → List SourceOp) → Type 0
IsTable buckets ops from to = (b : ℕ) → to b ≡ from b ++ ops_in buckets b ops

add_ops-IsTable :
    (buckets : ℕ) (ops : List SourceOp) (table : ℕ → List SourceOp)
    → all_placed buckets ops ≡ true
    → (t : ℕ → List SourceOp) × (add_ops buckets ops table ≡ some t) × IsTable buckets ops table t
unfolding add_ops all_placed ops_in
add_ops-IsTable buckets [] table h = (table, refl, λ b. sym (append-nil (table b)))
add_ops-IsTable buckets (op ∷ ops) table h =
    let (k, e) = has_bucket-some (bucket_of buckets op.op_hash) (ground arith) in
    let (t, made, is) = add_ops-IsTable buckets ops (chain_add k op table) (ground arith) in
    (
      t,
      rw e made,
      λ b. is b ∙ either-append (b == k) (table b) op (ops_in buckets b ops) ∙ rw e refl,
    )

find_op-ops_in :
    (buckets b : ℕ) (token : List ℕ) (ops : List SourceOp)
    → bucket_of buckets (hash_string token) ≡ some b
    → all_hashed ops ≡ true
    → find_op (hash_string token) token (ops_in buckets b ops) ≡ op_named token ops
unfolding find_op ops_in op_named all_hashed
find_op-ops_in buckets b token [] own h = refl
find_op-ops_in buckets b token (op ∷ ops) own h =
    let same : op.op_hash ≡ hash_string op.op_name = ground arith in
    ground (arith, same, own, text_eq-eq token op.op_name, find_op-ops_in buckets b token ops own)

init_optable-IsTable :
    (t : ℕ → List SourceOp) × (init_optable ≡ some t) × IsTable op_buckets source_ops (λ b. []) t
unfolding init_optable
init_optable-IsTable = add_ops-IsTable op_buckets source_ops (λ b. []) source_ops-placed

search_op-some :
    (token : List ℕ) (t : ℕ → List SourceOp) (b : ℕ)
    → init_optable ≡ some t
    → bucket_of op_buckets (hash_string token) ≡ some b
    → search_op token ≡ some (find_op (hash_string token) token (t b))
unfolding search_op search_in
search_op-some token t b e own =
    ap (λ table. search_in token table (bucket_of op_buckets (hash_string token))) e
    ∙ ap (search_in token (some t)) own

-- For every token whose hash value leads to a bucket, the search of the hash table that `InitTables`
-- has built finds the first of `sourceOps` that has the token as its name, or nothing.
pub search_op-op_named :
    (token : List ℕ) (b : ℕ)
    → bucket_of op_buckets (hash_string token) ≡ some b
    → search_op token ≡ some (op_named token source_ops)
search_op-op_named token b own =
    let (t, made, is) = init_optable-IsTable in
    search_op-some token t b made own
    ∙ ap some (
        ap (find_op (hash_string token) token) (is b)
        ∙ find_op-ops_in op_buckets b token source_ops own source_ops-hashed)
