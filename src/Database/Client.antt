-- ===== src/Database/Client.antt =====
-- `Database` (database/database.go, database/error.go): each method is one request to the server, which
-- is a parameter: a state, and for each request an answer and the next state.
use slide_sdk.Common.{ℕ, Bool, true, Option, none, some, List, Bytes, ◌⊎◌}
use slide_sdk.Common.Outcome.{Outcome, ok, err, panic}

-- `rpcdb.Error`; an `other` value names no error.
pub data Code : Type 0 where
  unspecified closed not_found : Code
  other : ℕ → Code

-- `ErrClosed`, and what the transport returns.
pub data DbError : Type 0 where
  is_closed : DbError
  transport : ℕ → DbError

-- `ErrEnumToError[code]`: a missing key is no error
abbrev pub error_of : Code → Option DbError
error_of Code.closed = some DbError.is_closed
error_of _ = none

-- `WriteBatchRequest`
pub record WriteRequest : Type 0 where
  pub puts : List (Bytes × Bytes)
  pub deletes : List Bytes

abbrev pub Reply : Type 0 → Type 0
Reply A = Outcome DbError (A × Code)

pub record Server : Type 1 where
  pub Node : Type 0
  pub has : Bytes → Node → Reply Bool × Node
  pub get : Bytes → Node → Reply Bytes × Node
  pub put : Bytes → Bytes → Node → Reply (Unit {0}) × Node
  pub delete : Bytes → Node → Reply (Unit {0}) × Node
  pub write_batch : WriteRequest → Node → Reply (Unit {0}) × Node
  pub close : Node → Reply (Unit {0}) × Node
  pub new_iterator : Bytes → Node → Outcome DbError ℕ × Node
  pub iterator_next : ℕ → Node → (DbError ⊎ List (Bytes × Bytes)) × Node
  pub iterator_error : ℕ → Node → (DbError ⊎ Code) × Node
  pub iterator_release : ℕ → Node → (DbError ⊎ Code) × Node

-- `if err != nil { return err }; return ErrEnumToError[resp.Err]`
unfoldable pub settle : {A : Type 0} → Reply A → Outcome DbError A
settle (ok (a, code)) = elim (error_of code) [ none ↦ ok a | some e ↦ err e ]
settle (err e) = err e
settle panic = panic

module _ (sv : Server) where
  -- `Database`: the connection, and whether `Close` was called
  pub record Database : Type 0 where
    pub node : sv.Node
    pub is_closed : Bool

  abbrev request :
      {A : Type 0} → (sv.Node → Reply A × sv.Node) → Database → Outcome DbError A × Database
  request call db = let (reply, n) = call db.node in (settle reply, record db { node = n })

  unfoldable pub close : Database → Outcome DbError (Unit {0}) × Database
  close db = request sv.close (record db { is_closed = true })

  unfoldable pub has : Bytes → Database → Outcome DbError Bool × Database
  has key = request (sv.has key)

  unfoldable pub get : Bytes → Database → Outcome DbError Bytes × Database
  get key = request (sv.get key)

  unfoldable pub set : Bytes → Bytes → Database → Outcome DbError (Unit {0}) × Database
  set key value = request (sv.put key value)

  unfoldable pub delete : Bytes → Database → Outcome DbError (Unit {0}) × Database
  delete key = request (sv.delete key)

  -- the request that `Batch.Write` makes
  unfoldable pub write_request : WriteRequest → Database → Outcome DbError (Unit {0}) × Database
  write_request r = request (sv.write_batch r)
