-- ===== src/Database/Iterator/Walk.antt =====
-- What the client of an iterator sees: before its first `Next`, after each, and at `Close`.
use slide_sdk.Common.{
  ℕ, zero, suc, ◌≡◌, refl, ap, ◌∙◌, false, Option, none, some, List, [], ◌∷◌, Bytes, map, length,
  inl, inr, arith, Option-cases,
}
use slide_sdk.Common.Outcome.{ok, Outcome-cases}
use slide_sdk.Database.Client.{Server, Database}
use slide_sdk.Database.Iterator.{
  Entry, Fetch, Iterator, new_iterator, set_error, update_error, ask, release, fetch_step,
  begin_next, receive, poll, begin_close, key, valid, Step, Reach,
}

module _ (sv : Server) where
  -- `fetch` until it may meet a receive, with fuel
  advance : ℕ → Iterator sv → Iterator sv
  advance zero it = it
  advance (suc n) it = elim it.fetch [
    | Fetch.asking ↦ advance n (ask sv it)
    | Fetch.offering batch ↦ it
    | Fetch.releasing ↦ advance n (release sv it)
    | Fetch.stopped ↦ it
  ]

  -- `Next`, with `fetch` run while it waits
  pub next : Iterator sv → Option (Iterator sv)
  next it = receive sv (advance 2 (begin_next sv it))

  -- `fetch` run alone, with fuel
  pub drain : ℕ → Iterator sv → Iterator sv
  drain zero it = it
  drain (suc n) it = elim (fetch_step sv it) [ none ↦ it | some it' ↦ drain n it' ]

  -- the key after each of `n` calls of `Next`
  pub keys : ℕ → Iterator sv → List Bytes
  keys zero it = []
  keys (suc n) it = elim (next it) [ none ↦ [] | some it' ↦ key sv it' ∷ keys n it' ]

  -- the batches that the server would answer with, from a state of it on
  pub data Answers (id : ℕ) : sv.Node → List (List Entry) → Type 0 where
    done : {n : sv.Node} → Answers id n []
    more :
        {n n' : sv.Node} {x : Entry} {xs : List Entry} {batches : List (List Entry)}
        → sv.iterator_next id n ≡ (inr (x ∷ xs), n')
        → Answers id n' batches
        → Answers id n ((x ∷ xs) ∷ batches)

  abbrev pub first_key : List Entry → Bytes
  first_key [] = []
  first_key ((k, v) ∷ rest) = k

  fetch_step-entries :
      (it : Iterator sv) {it' : Iterator sv}
      → fetch_step sv it ≡ some it'
      → it'.entries ≡ it.entries
  unfolding fetch_step ask release set_error
  fetch_step-entries it h = ground arith

  Step-entries :
      {n : ℕ} {it it' : Iterator sv} → Step sv n it it' → n ≡ 0 → it.entries ≡ [] → it'.entries ≡ []
  unfolding begin_next poll update_error set_error begin_close
  Step-entries {it = it} (Step.fetches h) z e = fetch_step-entries it h ∙ e
  Step-entries Step.begins_next z e = ground arith
  Step-entries (Step.receives h) z e = ground arith
  Step-entries (Step.polls h) z e = ground arith
  Step-entries Step.begins_close z e = e

  Reach-entries :
      {n : ℕ} {it it' : Iterator sv}
      → Reach sv n it it'
      → n ≡ 0
      → it.entries ≡ []
      → it'.entries ≡ []
  Reach-entries Reach.here z e = e
  Reach-entries (Reach.then path step) z e =
      Step-entries step (omega arith) (Reach-entries path (omega arith) e)

  new_iterator-entries :
      (start end : Bytes) (db db' : Database sv) {it : Iterator sv}
      → new_iterator sv start end db ≡ (ok it, db')
      → it.entries ≡ []
  unfolding new_iterator
  new_iterator-entries start end db db' h = elim (Outcome-cases (sv.new_iterator start db.node).0) [
    | inl (id, e) ↦ ground arith
    | inr (inl (x, e)) ↦ ground arith
    | inr (inr e) ↦ ground arith
  ]

  -- A new iterator is not valid in any state that it reaches before a `Next` has returned.
  pub valid-new_iterator :
      (start end : Bytes) (db db' : Database sv) {it it' : Iterator sv}
      → new_iterator sv start end db ≡ (ok it, db')
      → Reach sv 0 it it'
      → valid sv it' ≡ false
  unfolding valid key
  valid-new_iterator start end db db' {it = it} {it' = it'} h path =
      let e = Reach-entries path refl (new_iterator-entries start end db db' h) in ground arith

  -- `Next` returns in every state, however the server answers.
  pub next_returns : (it : Iterator sv) → (it' : Iterator sv) × (next it ≡ some it')
  unfolding next advance receive ask release set_error
  next_returns it = elim (Option-cases (next it)) [ inl e ↦ ground (arith) | inr p ↦ p ]

  -- After `Close` at most three steps of `fetch` end it, so that the wait of `Close` is over.
  pub close_stops : (it : Iterator sv) → (drain 3 (begin_close sv it)).fetch ≡ Fetch.stopped
  unfolding drain begin_close fetch_step ask release set_error
  close_stops it = ground arith

  -- the state after a `Next` that a batch has answered
  abbrev After : Iterator sv → List Entry → sv.Node → Iterator sv → Type 0
  After it batch n it' =
      (it'.entries ≡ batch) × (it'.fetch ≡ Fetch.asking) × (it'.id ≡ it.id) × (it'.db.node ≡ n)

  begin_next-fetch :
      (it : Iterator sv)
      → ((begin_next sv it).fetch ≡ it.fetch)
        × ((begin_next sv it).id ≡ it.id)
        × ((begin_next sv it).db ≡ it.db)
  unfolding begin_next set_error
  begin_next-fetch it = (ground arith, ground arith, ground arith)

  ask-receive :
      (it : Iterator sv) {n : sv.Node} {x : Entry} {xs : List Entry}
      → it.fetch ≡ Fetch.asking
      → sv.iterator_next it.id it.db.node ≡ (inr (x ∷ xs), n)
      → (it' : Iterator sv) × (receive sv (advance 2 it) ≡ some it') × After it (x ∷ xs) n it'
  unfolding advance ask receive
  ask-receive it f e = elim (Option-cases (receive sv (advance 2 it))) [
    | inl n ↦ ground arith
    | inr (it', h) ↦ (it', h, (ground arith, ground arith, ground arith, ground arith))
  ]

  next-asking :
      (it : Iterator sv) {n : sv.Node} {x : Entry} {xs : List Entry}
      → it.fetch ≡ Fetch.asking
      → sv.iterator_next it.id it.db.node ≡ (inr (x ∷ xs), n)
      → (it' : Iterator sv) × (next it ≡ some it') × After it (x ∷ xs) n it'
  unfolding next
  next-asking it f e =
      let (same_fetch, same_id, same_db) = begin_next-fetch it in
      let (it', h, (seen, fetch, id, node)) =
        ask-receive (begin_next sv it) (same_fetch ∙ f) (rw (same_id, same_db) e) in
      (it', h, (seen, fetch, id ∙ same_id, node))

  keys-next :
      (n : ℕ) (it it' : Iterator sv)
      → next it ≡ some it'
      → keys (suc n) it ≡ key sv it' ∷ keys n it'
  unfolding keys
  keys-next n it it' h = rw (keys, h) refl

  -- The keys that the calls of `Next` show are the first keys of the server's batches, one for each
  -- batch: no other entry of a batch is seen.
  pub keys_first :
      (it : Iterator sv) (batches : List (List Entry))
      → it.fetch ≡ Fetch.asking
      → Answers it.id it.db.node batches
      → keys (length batches) it ≡ map first_key batches
  unfolding keys key
  keys_first it [] f later = refl
  keys_first it ([] ∷ rest) f later = elim later [ ]
  keys_first it ((x ∷ xs) ∷ rest) f (Answers.more e later) =
      let (it', h, (seen, f', i, node)) = next-asking it f e in
      let rest_keys = keys_first it' rest f' (rw (i, node) later) in
      keys-next (length rest) it it' h
      ∙ ap (λ k. k ∷ keys (length rest) it') (rw (seen, key) refl)
      ∙ ap (◌∷◌ x.0) rest_keys
