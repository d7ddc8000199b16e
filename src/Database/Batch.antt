-- ===== src/Database/Batch.antt =====
-- `Batch` (database/batch.go): writes that are collected, and sent as one request in which each key
-- stands once.
pub mod Sequential
use mathlib.Core.List.{reverse}
use slide_sdk.Common.{
  ℕ, ◌+◌, Bool, true, false, List, [], ◌∷◌, ◌++◌, Bytes, Bytes-discrete, length, ite, if◌then◌else◌,
}
use slide_sdk.Common.Outcome.{Outcome}
use slide_sdk.Database.Client.{Server, Database, DbError, WriteRequest, write_request}

pub record BatchOp : Type 0 where
  pub key : Bytes
  pub value : Bytes
  pub is_delete : Bool

pub record Batch : Type 0 where
  pub ops : List BatchOp
  pub size : ℕ

abbrev pub empty : Batch
empty = record { ops = []; size = 0 }

unfoldable pub set : Bytes → Bytes → Batch → Batch
set key value b = record {
  ops = b.ops ++ record { key = key; value = value; is_delete = false } ∷ [];
  size = b.size + (length key + length value);
}

unfoldable pub delete : Bytes → Batch → Batch
delete key b = record {
  ops = b.ops ++ record { key = key; value = []; is_delete = true } ∷ [];
  size = b.size + length key;
}

-- `keySet[key]`
unfoldable pub seen : Bytes → List Bytes → Bool
seen k [] = false
seen k (j ∷ js) = ite (Bytes-discrete j k) true (seen k js)

-- the body of the loop for a key that was not seen
unfoldable pub add_op : BatchOp → WriteRequest → WriteRequest
add_op op r =
    if op.is_delete
    then record r { deletes = r.deletes ++ op.key ∷ [] }
    else record r { puts = r.puts ++ (op.key, op.value) ∷ [] }

-- the loop, over the operations from the last to the first
unfoldable pub collect : List BatchOp → List Bytes → WriteRequest → WriteRequest
collect [] keys r = r
collect (op ∷ ops) keys r =
    let known = seen op.key keys in
    collect ops (if known then keys else op.key ∷ keys) (if known then r else add_op op r)

unfoldable pub request_of : Batch → WriteRequest
request_of b = collect (reverse b.ops) [] (record { puts = []; deletes = [] })

-- `Write`
unfoldable pub write :
    (sv : Server) → Batch → Database sv → Outcome DbError (Unit {0}) × Database sv
write sv b = write_request sv (request_of b)
