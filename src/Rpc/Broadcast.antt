-- ===== src/Rpc/Broadcast.antt =====
-- The RPC handlers of the mempool (vm/rpc.go). What the mempool, the event bus and the clock answer to
-- one request is a record, and a handler returns the calls that it made, in their order.
use slide_sdk.Common.{
  ℕ, ◌≡◌, ◌⊎◌, inl, inr, Option, none, some, List, [], ◌∷◌, Bytes, length, ◌==◌, if◌then◌else◌,
  arith, ◌≢◌, ℕ_discrete, Bool-cases, Option-cases,
}
use slide_sdk.Common.Int.{ℤ, pos, leb_ℤ, ◌<ℤ◌}
use slide_sdk.Config.{VmConfig}
use slide_sdk.Rpc.{RpcError, validate_per_page}

-- `abci.ResponseCheckTx`
pub record CheckTx : Type 0 where
  pub code : ℕ
  pub content : Bytes
  pub log : Bytes
  pub codespace : Bytes

-- `abci.CodeTypeOK`
abbrev pub code_type_ok : ℕ
code_type_ok = 0

-- what ends the first wait
pub data Checking : Type 0 where
  cancelled : ℕ → Checking
  checked : CheckTx → Checking

-- what ends the second wait: a message with the event of a transaction or another one, the end of the
-- subscription, with its error if there is one, or the time
pub data Delivery : Type 0 where
  included : ℤ → Bytes → Delivery
  other_data : Delivery
  ended : Option ℕ → Delivery
  timed_out : Delivery

pub record Answers : Type 0 where
  pub num_clients : ℤ
  pub num_client_subscriptions : ℤ
  pub subscribe : Option RpcError
  pub check_tx : Option RpcError
  pub checking : Checking
  pub delivery : Delivery
  pub hash : Bytes

pub data Call : Type 0 where
  subscribe unsubscribe check_tx : Call

pub record ResultBroadcastTxCommit : Type 0 where
  pub check_tx : CheckTx
  pub tx_result : Bytes
  pub hash : Bytes
  pub height : ℤ

pub record ResultBroadcastTx : Type 0 where
  pub response : Option CheckTx
  pub hash : Bytes

-- a Go result: the value, nil or not, and the error
abbrev pub Returned : Type 0 → Type 0
Returned A = Option A × Option RpcError

-- the second wait of `BroadcastTxCommit`
unfoldable pub deliver : Answers → CheckTx → Returned ResultBroadcastTxCommit
deliver a c =
    let unknown : ResultBroadcastTxCommit = record {
      check_tx = c;
      tx_result = [];
      hash = a.hash;
      height = pos 0;
    } in
    elim a.delivery [
      | Delivery.included h r ↦ (some (record unknown { tx_result = r; height = h }), none)
      | Delivery.other_data ↦ (none, some RpcError.unexpected_event)
      | Delivery.ended reason ↦ (some unknown, some (RpcError.subscription_ended reason))
      | Delivery.timed_out ↦ (some unknown, some RpcError.timed_out)
    ]

-- what follows the subscription
unfoldable pub commit_subscribed : Answers → Returned ResultBroadcastTxCommit
commit_subscribed a = elim a.check_tx [
  | some e ↦ (none, some e)
  | none ↦ elim a.checking [
    | Checking.cancelled n ↦ (none, some (RpcError.not_received n))
    | Checking.checked c ↦
        if c.code == code_type_ok
        then deliver a c
        else (some (record { check_tx = c; tx_result = []; hash = a.hash; height = pos 0 }), none)
  ]
]

-- `BroadcastTxCommit`; the call that is deferred comes last
unfoldable pub broadcast_tx_commit :
    VmConfig → Answers → Returned ResultBroadcastTxCommit × List Call
broadcast_tx_commit cfg a =
    if leb_ℤ cfg.max_subscription_clients a.num_clients
    then ((none, some RpcError.max_clients_reached), [])
    else if leb_ℤ cfg.max_subscriptions_per_client a.num_client_subscriptions
    then ((none, some RpcError.max_subscriptions_reached), [])
    else elim a.subscribe [
      | some e ↦ ((none, some e), Call.subscribe ∷ [])
      | none ↦ (commit_subscribed a, Call.subscribe ∷ Call.check_tx ∷ Call.unsubscribe ∷ [])
    ]

-- `BroadcastTxAsync`
unfoldable pub broadcast_tx_async : Answers → Returned ResultBroadcastTx
broadcast_tx_async a = elim a.check_tx [
  | some e ↦ (none, some e)
  | none ↦ (some (record { response = none; hash = a.hash }), none)
]

-- `BroadcastTxSync`
unfoldable pub broadcast_tx_sync : Answers → Returned ResultBroadcastTx
broadcast_tx_sync a = elim a.check_tx [
  | some e ↦ (none, some e)
  | none ↦ elim a.checking [
    | Checking.cancelled n ↦ (none, some (RpcError.not_received n))
    | Checking.checked c ↦ (some (record { response = some c; hash = a.hash }), none)
  ]
]

-- the mempool, with `ReapMaxTxs`
pub record Mempool : Type 0 where
  pub reap_max_txs : ℤ → List Bytes
  pub size : ℕ
  pub size_bytes : ℤ

pub record ResultUnconfirmedTxs : Type 0 where
  pub count : ℕ
  pub total : ℕ
  pub total_bytes : ℤ
  pub txs : List Bytes

-- `UnconfirmedTxs`
unfoldable pub unconfirmed_txs : Mempool → Option ℤ → ResultUnconfirmedTxs
unconfirmed_txs m limit =
    let txs = m.reap_max_txs (validate_per_page limit) in
    record { count = length txs; total = m.size; total_bytes = m.size_bytes; txs = txs }

-- `NumUnconfirmedTxs`
unfoldable pub num_unconfirmed_txs : Mempool → ResultUnconfirmedTxs
num_unconfirmed_txs m = record {
  count = m.size;
  total = m.size;
  total_bytes = m.size_bytes;
  txs = [];
}

-- the calls of a request, and why there are no more
abbrev pub CallsFit : VmConfig → Answers → List Call → Type 0
CallsFit cfg a calls =
    (calls ≡ [])
    ⊎ ((a.num_clients <ℤ cfg.max_subscription_clients)
        × (a.num_client_subscriptions <ℤ cfg.max_subscriptions_per_client)
        × (((calls ≡ Call.subscribe ∷ []) × ((e : RpcError) × (a.subscribe ≡ some e)))
            ⊎ ((calls ≡ Call.subscribe ∷ Call.check_tx ∷ Call.unsubscribe ∷ [])
                × (a.subscribe ≡ none))))

-- `BroadcastTxCommit` calls nothing for a client over its limits, and ends each subscription that it has
-- made, whatever the mempool and the event bus answer.
pub broadcast_tx_commit-CallsFit :
    (cfg : VmConfig) (a : Answers) → CallsFit cfg a (broadcast_tx_commit cfg a).1
unfolding broadcast_tx_commit
broadcast_tx_commit-CallsFit cfg a =
    elim (Bool-cases (leb_ℤ cfg.max_subscription_clients a.num_clients)) [
      | inl over ↦ inl (ground arith)
      | inr free ↦
          elim (Bool-cases (leb_ℤ cfg.max_subscriptions_per_client a.num_client_subscriptions)) [
            | inl over ↦ inl (ground arith)
            | inr free' ↦ elim (Option-cases a.subscribe) [
              | inl s ↦ inr (ground arith, ground arith, inr (ground arith, s))
              | inr (e, s) ↦ inr (ground arith, ground arith, inl (ground arith, (e, s)))
            ]
          ]
    ]

-- Where `BroadcastTxCommit` returns a value with no error, the check of the transaction was received and is
-- that of the value; the check has failed, or a block with the transaction was seen, at the height and with
-- the result of the value.
pub broadcast_tx_commit-included :
    (cfg : VmConfig) (a : Answers) {r : ResultBroadcastTxCommit}
    → (broadcast_tx_commit cfg a).0 ≡ (some r, none)
    → (a.checking ≡ Checking.checked r.check_tx)
      × ((r.check_tx.code ≢ code_type_ok) ⊎ (a.delivery ≡ Delivery.included r.height r.tx_result))
unfolding broadcast_tx_commit commit_subscribed deliver
broadcast_tx_commit-included cfg a {r = r} e = (
  ground arith,
  elim (ℕ_discrete r.check_tx.code code_type_ok) [
    | yes same ↦ inr (ground arith)
    | no differs ↦ inl differs
  ],
)
