-- ===== src/Examples/DatabaseCase.antt =====
-- The theorems on batches and iterators, at a server that answers two batches.
use slide_sdk.Common.{◌≡◌, refl, false, none, some, List, [], ◌∷◌, inr}
use slide_sdk.Common.Outcome.{ok}
use slide_sdk.Database.Client.{Server, Database, unspecified}
use slide_sdk.Database.Batch
use slide_sdk.Database.Batch.{Batch, set, delete, request_of}
use slide_sdk.Database.Batch.Sequential.{
  find, run_ops, run_puts, run_deletes, request_of_sequential,
}
use slide_sdk.Database.Iterator.{Entry, Iterator, Fetch, new_iterator}
use slide_sdk.Database.Iterator.Walk.{next, keys, Answers, next_returns, keys_first}

program : Unit {0}
unfolding new_iterator
program = tt

-- its state is the list of the batches to come
abbrev server : Server
server = record {
  Node = List (List Entry);
  has = λ k n. (ok (false, unspecified), n);
  get = λ k n. (ok ([], unspecified), n);
  put = λ k v n. (ok (tt, unspecified), n);
  delete = λ k n. (ok (tt, unspecified), n);
  write_batch = λ r n. (ok (tt, unspecified), n);
  close = λ n. (ok (tt, unspecified), n);
  new_iterator = λ s n. (ok 7, n);
  iterator_next = λ id n. elim n [ [] ↦ (inr [], []) | b ∷ bs ↦ (inr b, bs) ];
  iterator_error = λ id n. (inr unspecified, n);
  iterator_release = λ id n. (inr unspecified, n);
}

abbrev batches : List (List Entry)
batches = ((1 ∷ [], 5 ∷ []) ∷ (2 ∷ [], 6 ∷ []) ∷ []) ∷ ((3 ∷ [], 7 ∷ []) ∷ []) ∷ []

abbrev database : Database server
database = record { node = batches; is_closed = false }

abbrev it : Iterator server
it = record {
  db = database;
  id = 7;
  start = [];
  end = [];
  entries = [];
  err = none;
  fetch = Fetch.asking;
  closing = false;
}

next_returns_example : (it' : Iterator server) × (next server it ≡ some it')
next_returns_example = next_returns server it

keys_first_example : keys server 2 it ≡ (1 ∷ []) ∷ (3 ∷ []) ∷ []
keys_first_example =
    keys_first server it batches refl (Answers.more refl (Answers.more refl Answers.done))

-- a key that is written twice, then deleted, and one that is deleted, then written
abbrev batch : Batch
batch =
    set (2 ∷ []) (8 ∷ []) (
      delete (2 ∷ []) (delete (1 ∷ []) (set (1 ∷ []) (6 ∷ []) (set (1 ∷ []) (5 ∷ []) Batch.empty))))

request_of_sequential_example :
    (find (2 ∷ []) (run_deletes (request_of batch).deletes (run_puts (request_of batch).puts []))
      ≡ find (2 ∷ []) (run_ops batch.ops []))
    × (find (2 ∷ []) (run_puts (request_of batch).puts (run_deletes (request_of batch).deletes []))
        ≡ find (2 ∷ []) (run_ops batch.ops []))
request_of_sequential_example = request_of_sequential batch [] (2 ∷ [])
