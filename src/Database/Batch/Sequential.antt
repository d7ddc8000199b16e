-- ===== src/Database/Batch/Sequential.antt =====
-- A batch writes what its operations would write one after the other.
use mathlib.Core.List.{reverse, reverse-cons}
use slide_sdk.Common.{
  ◌≡◌, refl, sym, ◌∙◌, ap, true, false, Option, none, some, List, [], ◌∷◌, ◌++◌, Bytes,
  Bytes-discrete, ite, if◌then◌else◌, arith, Bool-cases, inl, inr, subst,
}
use slide_sdk.Common.Map
use slide_sdk.Database.Client.{WriteRequest}
use slide_sdk.Database.Batch.{BatchOp, Batch, seen, add_op, collect, request_of}

abbrev pub Table : Type 0
Table = List (Bytes × Bytes)

-- one operation on a table
pub run_op : BatchOp → Table → Table
run_op op m =
    if op.is_delete
    then Map.delete Bytes-discrete op.key m
    else Map.store Bytes-discrete op.key op.value m

-- the operations, from the first to the last
pub run_ops : List BatchOp → Table → Table
run_ops [] m = m
run_ops (op ∷ ops) m = run_ops ops (run_op op m)

pub run_puts : List (Bytes × Bytes) → Table → Table
run_puts [] m = m
run_puts ((k, v) ∷ ps) m = run_puts ps (Map.store Bytes-discrete k v m)

pub run_deletes : List Bytes → Table → Table
run_deletes [] m = m
run_deletes (k ∷ ks) m = run_deletes ks (Map.delete Bytes-discrete k m)

abbrev pub find : Bytes → Table → Option Bytes
find k m = Map.lookup Bytes-discrete k m

-- the value that an operation leaves at its key
abbrev left : BatchOp → Option Bytes
left op = if op.is_delete then none else some op.value

-- what a list of operations, the last first, leaves at a key
outcome : Bytes → List BatchOp → Option Bytes → Option Bytes
outcome k [] old = old
outcome k (op ∷ ops) old = ite (Bytes-discrete op.key k) (left op) (outcome k ops old)

-- what the puts leave at a key
put_at : Bytes → List (Bytes × Bytes) → Option Bytes → Option Bytes
put_at k [] old = old
put_at k ((j, v) ∷ ps) old = put_at k ps (ite (Bytes-discrete j k) (some v) old)

put_at-append :
    (k j v : Bytes) (ps : List (Bytes × Bytes)) (old : Option Bytes)
    → put_at k (ps ++ (j, v) ∷ []) old ≡ ite (Bytes-discrete j k) (some v) (put_at k ps old)
unfolding put_at
put_at-append k j v [] old = refl
put_at-append k j v ((i, u) ∷ ps) old = put_at-append k j v ps _

find-run_puts :
    (k : Bytes) (ps : List (Bytes × Bytes)) (m : Table)
    → find k (run_puts ps m) ≡ put_at k ps (find k m)
unfolding run_puts put_at
find-run_puts k [] m = refl
find-run_puts k ((j, v) ∷ ps) m =
    find-run_puts k ps (Map.store Bytes-discrete j v m)
    ∙ ap (put_at k ps) (Map.lookup-store Bytes-discrete j k v m)

seen-append :
    (k j : Bytes) (ks : List Bytes)
    → seen k (ks ++ j ∷ []) ≡ ite (Bytes-discrete j k) true (seen k ks)
unfolding seen
seen-append k j [] = refl
seen-append k j (i ∷ ks) = ground (arith, seen-append k j ks)

find-run_deletes :
    (k : Bytes) (ks : List Bytes) (m : Table)
    → find k (run_deletes ks m) ≡ (if seen k ks then none else find k m)
unfolding run_deletes seen
find-run_deletes k [] m = refl
find-run_deletes k (j ∷ ks) m = ground (
  arith,
  find-run_deletes k ks (Map.delete Bytes-discrete j m),
  Map.lookup-delete Bytes-discrete j k m,
)

-- Sequential writes leave at a key what the last operation on it leaves.
outcome-append :
    (k : Bytes) (ops : List BatchOp) (op : BatchOp) (old : Option Bytes)
    → outcome k (ops ++ op ∷ []) old ≡ outcome k ops (ite (Bytes-discrete op.key k) (left op) old)
unfolding outcome
outcome-append k [] op old = refl
outcome-append k (p ∷ ops) op old = ground (arith, outcome-append k ops op old)

find-run_op :
    (k : Bytes) (op : BatchOp) (m : Table)
    → find k (run_op op m) ≡ ite (Bytes-discrete op.key k) (left op) (find k m)
unfolding run_op
find-run_op k op m = elim (Bool-cases op.is_delete) [
  | inl e ↦ rw (e, run_op) (Map.lookup-delete Bytes-discrete op.key k m)
  | inr e ↦ rw (e, run_op) (Map.lookup-store Bytes-discrete op.key k op.value m)
]

find-run_ops :
    (k : Bytes) (ops : List BatchOp) (m : Table)
    → find k (run_ops ops m) ≡ outcome k (reverse ops) (find k m)
unfolding run_ops outcome
find-run_ops k [] m = refl
find-run_ops k (op ∷ ops) m =
    find-run_ops k ops (run_op op m)
    ∙ ap (outcome k (reverse ops)) (find-run_op k op m)
    ∙ sym (outcome-append k (reverse ops) op (find k m))
    ∙ ap (λ l. outcome k l (find k m)) (sym (reverse-cons op ops))

-- the keys of a request were all seen, and none is both put and deleted
record Tidy (keys : List Bytes) (r : WriteRequest) : Type 0 where
  deletes_seen : (k : Bytes) → seen k keys ≡ false → seen k r.deletes ≡ false
  puts_seen : (k : Bytes) (old : Option Bytes) → seen k keys ≡ false → put_at k r.puts old ≡ old
  apart : (k : Bytes) (old : Option Bytes) → seen k r.deletes ≡ true → put_at k r.puts old ≡ old

module _ (op : BatchOp) (keys : List Bytes) (r : WriteRequest) (h : seen op.key keys ≡ false)
    (t : Tidy keys r) where
  add_delete-Tidy : Tidy (op.key ∷ keys) (record r { deletes = r.deletes ++ op.key ∷ [] })
  unfolding seen
  add_delete-Tidy = record {
    deletes_seen = λ k n.
        let a = t.deletes_seen k in
        ground (arith, seen-append k op.key r.deletes, t.deletes_seen k);
    puts_seen = λ k old n. t.puts_seen k old (ground arith);
    apart = λ k old n. elim (Bytes-discrete op.key k) [
      | yes e ↦ t.puts_seen k old (subst (λ x. seen x keys ≡ false) e h)
      | no ne ↦ t.apart k old (ground (arith, seen-append k op.key r.deletes))
    ];
  }

  add_put-Tidy : Tidy (op.key ∷ keys) (record r { puts = r.puts ++ (op.key, op.value) ∷ [] })
  unfolding seen
  add_put-Tidy = record {
    deletes_seen = λ k n. t.deletes_seen k (ground arith);
    puts_seen =
        λ k old n. ground (arith, put_at-append k op.key op.value r.puts old, t.puts_seen k old);
    apart = λ k old n. elim (Bytes-discrete op.key k) [
      | yes e ↦ let free = t.deletes_seen k (subst (λ x. seen x keys ≡ false) e h) in absurd (cc)
      | no ne ↦ ground (arith, put_at-append k op.key op.value r.puts old, t.apart k old)
    ];
  }

  add_op-Tidy : Tidy (op.key ∷ keys) (add_op op r)
  unfolding add_op
  add_op-Tidy = elim (Bool-cases op.is_delete) [
    | inl e ↦ rw (e, add_op) add_delete-Tidy
    | inr e ↦ rw (e, add_op) add_put-Tidy
  ]

-- what a request leaves at a key, deletes after puts
result : Bytes → WriteRequest → Option Bytes → Option Bytes
result k r old = if seen k r.deletes then none else put_at k r.puts old

result-add_op :
    (k : Bytes) (op : BatchOp) (keys : List Bytes) (r : WriteRequest) (old : Option Bytes)
    → seen op.key keys ≡ false
    → Tidy keys r
    → result k (add_op op r) old ≡ ite (Bytes-discrete op.key k) (left op) (result k r old)
unfolding result add_op
result-add_op k op keys r old h t =
    let free = t.deletes_seen op.key h in
    ground (arith, seen-append k op.key r.deletes, put_at-append k op.key op.value r.puts old)

collect-Tidy :
    (ops : List BatchOp) (keys : List Bytes) (r : WriteRequest)
    → Tidy keys r
    → (all : List Bytes) × Tidy all (collect ops keys r)
unfolding collect
collect-Tidy [] keys r t = (keys, t)
collect-Tidy (op ∷ ops) keys r t = elim (Bool-cases (seen op.key keys)) [
  | inl e ↦ rw e (collect-Tidy ops keys r t)
  | inr e ↦ rw e (collect-Tidy ops (op.key ∷ keys) (add_op op r) (add_op-Tidy op keys r e t))
]

result-collect :
    (k : Bytes) (ops : List BatchOp) (keys : List Bytes) (r : WriteRequest) (old : Option Bytes)
    → Tidy keys r
    → result k (collect ops keys r) old
      ≡ (if seen k keys then result k r old else outcome k ops (result k r old))
unfolding collect outcome seen
result-collect k [] keys r old t = ground arith
result-collect k (op ∷ ops) keys r old t = elim (Bool-cases (seen op.key keys)) [
  | inl e ↦ rw e (ground (arith, result-collect k ops keys r old t))
  | inr e ↦ rw e (
      ground (
        arith,
        result-collect k ops (op.key ∷ keys) (add_op op r) old (add_op-Tidy op keys r e t),
        result-add_op k op keys r old e t,
      ))
]

abbrev nothing : WriteRequest
nothing = record { puts = []; deletes = [] }

nothing-Tidy : Tidy [] nothing
unfolding seen put_at
nothing-Tidy = record {
  deletes_seen = λ k n. refl;
  puts_seen = λ k old n. refl;
  apart = λ k old n. refl;
}

request-outcome :
    (k : Bytes) (b : Batch) (old : Option Bytes)
    → (if seen k (request_of b).deletes then none else put_at k (request_of b).puts old)
      ≡ outcome k (reverse b.ops) old
unfolding request_of result put_at seen
request-outcome k b old = result-collect k (reverse b.ops) [] nothing old nothing-Tidy

delete_first :
    (k : Bytes) (r : WriteRequest) (old : Option Bytes) (keys : List Bytes)
    → Tidy keys r
    → put_at k r.puts (if seen k r.deletes then none else old)
      ≡ (if seen k r.deletes then none else put_at k r.puts old)
delete_first k r old keys t = elim (Bool-cases (seen k r.deletes)) [
  | inl e ↦ rw e (t.apart k none e)
  | inr e ↦ rw e refl
]

-- The request of a batch leaves at each key of a table what its operations leave, made one after the
-- other in their order, whether the puts are made before the deletes or after them.
pub request_of_sequential :
    (b : Batch) (m : Table) (k : Bytes)
    → (find k (run_deletes (request_of b).deletes (run_puts (request_of b).puts m))
        ≡ find k (run_ops b.ops m))
      × (find k (run_puts (request_of b).puts (run_deletes (request_of b).deletes m))
          ≡ find k (run_ops b.ops m))
unfolding request_of
request_of_sequential b m k =
    let r = request_of b in
    let (all, t) = collect-Tidy (reverse b.ops) [] nothing nothing-Tidy in
    let last = request-outcome k b (find k m) in
    (
      find-run_deletes k r.deletes (run_puts r.puts m)
          ∙ ground (arith, find-run_puts k r.puts m, last, find-run_ops k b.ops m),
      find-run_puts k r.puts (run_deletes r.deletes m)
          ∙ ap (put_at k r.puts) (find-run_deletes k r.deletes m)
          ∙ delete_first k r (find k m) all t
          ∙ last
          ∙ sym (find-run_ops k b.ops m),
    )
