-- ===== src/Database/Iterator.antt =====
-- `Iterator` (database/iterator.go): the client's calls and the goroutine `fetch`, which asks the server
-- for batches of entries ahead of them and offers each on a channel. A step is one request, one send
-- with its receive, or one change of the client's own fields, so the steps interleave as they do there.
pub mod Walk
use slide_sdk.Common.{
  ◌≡◌, ℕ, ◌+◌, Bool, true, false, ◌&&◌, Option, none, some, List, [], ◌∷◌, Bytes, length, ltb,
  if◌then◌else◌, ◌⊎◌, inl, inr,
}
use slide_sdk.Common.Outcome.{Outcome, ok, err, panic}
use slide_sdk.Database.Client.{Server, Database, DbError, Code, error_of}

abbrev pub Entry : Type 0
Entry = Bytes × Bytes

-- where `fetch` is: before a request, in the inner loop with a batch to send, in the deferred function,
-- or past it, with `fetchedData` and `onClosed` closed
pub data Fetch : Type 0 where
  asking : Fetch
  offering : List Entry → Fetch
  releasing stopped : Fetch

module _ (sv : Server) where
  -- `Iterator`; `entries` is its `data`, and `closing` says that `onClose` is closed
  pub record Iterator : Type 0 where
    pub db : Database sv
    pub id : ℕ
    pub start : Bytes
    pub end : Bytes
    pub entries : List Entry
    pub err : Option DbError
    pub fetch : Fetch
    pub closing : Bool

  -- `Database.Iterator`, and `ReverseIterator`, which calls it
  unfoldable pub new_iterator : Bytes → Bytes → Database sv → Outcome DbError Iterator × Database sv
  new_iterator start end db =
      let (r, n) = sv.new_iterator start db.node in
      let db' = record db { node = n } in
      (
        (elim r [
          | ok id ↦ ok (record {
            db = db';
            id = id;
            start = start;
            end = end;
            entries = [];
            err = none;
            fetch = Fetch.asking;
            closing = false;
          })
          | err e ↦ err e
          | panic ↦ panic
        ]),
        db',
      )

  -- `setError`: the first error stays
  unfoldable pub set_error : Option DbError → Iterator → Iterator
  set_error e it = record it { err = elim it.err [ none ↦ e | some first ↦ some first ] }

  -- the error in the answer of `IteratorError` and `IteratorRelease`
  abbrev pub answer_error : DbError ⊎ Code → Option DbError
  answer_error (inl e) = some e
  answer_error (inr code) = error_of code

  -- `updateError`, in `fetch`
  unfoldable pub update_error : Iterator → Iterator
  update_error it =
      let (r, n) = sv.iterator_error it.id it.db.node in
      set_error (answer_error r) (record it { db = record it.db { node = n } })

  -- the request of the outer loop, and what follows its answer
  unfoldable pub ask : Iterator → Iterator
  ask it =
      let (r, n) = sv.iterator_next it.id it.db.node in
      let it' = record it { db = record it.db { node = n } } in
      elim r [
        | inl e ↦ set_error (some e) (record it' { fetch = Fetch.releasing })
        | inr [] ↦ record it' { fetch = Fetch.releasing }
        | inr (x ∷ xs) ↦ record it' { fetch = Fetch.offering (x ∷ xs) }
      ]

  -- the deferred function
  unfoldable pub release : Iterator → Iterator
  release it =
      let (r, n) = sv.iterator_release it.id it.db.node in
      set_error (answer_error r)
        (record it { db = record it.db { node = n }; fetch = Fetch.stopped })

  -- a step of `fetch` that needs no client; `none` when it waits for one, or is over
  unfoldable pub fetch_step : Iterator → Option Iterator
  fetch_step it = elim it.fetch [
    | Fetch.asking ↦ some (ask it)
    | Fetch.offering batch ↦
        if it.closing then some (record it { fetch = Fetch.releasing }) else none
    | Fetch.releasing ↦ some (release it)
    | Fetch.stopped ↦ none
  ]

  -- `Next` up to the receive: the checks, and the head dropped where more follow
  unfoldable pub begin_next : Iterator → Iterator
  begin_next it =
      let it' =
        if it.db.is_closed
        then set_error (some DbError.is_closed) (record it { entries = [] })
        else it in
      record it' {
        entries = elim it'.entries [ [] ↦ [] | x ∷ [] ↦ x ∷ [] | x ∷ y ∷ rest ↦ y ∷ rest ];
      }

  -- `it.data = <-it.fetchedData`; a closed channel gives nil, and `none` is a receive that waits
  unfoldable pub receive : Iterator → Option Iterator
  receive it = elim it.fetch [
    | Fetch.offering batch ↦ some (record it { entries = batch; fetch = Fetch.asking })
    | Fetch.stopped ↦ some (record it { entries = [] })
    | _ ↦ none
  ]

  -- `Error` with no error known yet: `fetch` asks the server, or is over
  unfoldable pub poll : Iterator → Option Iterator
  poll it = elim it.fetch [
    | Fetch.offering batch ↦ some (update_error it)
    | Fetch.stopped ↦ some it
    | _ ↦ none
  ]

  -- `Close`, up to its wait for `fetch`
  unfoldable pub begin_close : Iterator → Iterator
  begin_close it = record it { closing = true }

  unfoldable pub key : Iterator → Bytes
  key it = elim it.entries [ [] ↦ [] | (k, v) ∷ rest ↦ k ]

  unfoldable pub value : Iterator → Bytes
  value it = elim it.entries [ [] ↦ [] | (k, v) ∷ rest ↦ v ]

  -- `Valid`, with the error that `Error` returned
  unfoldable pub valid : Iterator → Bool
  valid it = elim it.err [ some e ↦ false | none ↦ ltb 0 (length (key it)) ]

  unfoldable pub domain : Iterator → Bytes × Bytes
  domain it = (it.start, it.end)

  -- A step of the program: `received` counts the receives, one for each `Next` that returned.
  pub data Step : ℕ → Iterator → Iterator → Type 0 where
    fetches : {it next : Iterator} → fetch_step it ≡ some next → Step 0 it next
    begins_next : {it : Iterator} → Step 0 it (begin_next it)
    receives : {it next : Iterator} → receive it ≡ some next → Step 1 it next
    polls : {it next : Iterator} → poll it ≡ some next → Step 0 it next
    begins_close : {it : Iterator} → Step 0 it (begin_close it)

  pub data Reach : ℕ → Iterator → Iterator → Type 0 where
    here : {it : Iterator} → Reach 0 it it
    then : {n m : ℕ} {a b c : Iterator} → Reach n a b → Step m b c → Reach (n + m) a c
