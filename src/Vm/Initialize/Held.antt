-- ===== src/Vm/Initialize/Held.antt =====
-- Which connections `Initialize` leaves open, and who closes them.
use slide_sdk.Common.{ℕ, ◌≡◌, refl, sym, ap, subst, Option, none, some, [], ◌∷◌, arith}
use slide_sdk.Common.Outcome.{ok, err, panic}
use slide_sdk.Chain.Types.{Result, Error}
use slide_sdk.Chain.Library.{Library}
use slide_sdk.Executor.World.{World, Trace}
use slide_sdk.Vm.Closers.{close_all, close_each-all, add_closer}
use slide_sdk.Vm.Triple.{IfOk}
use slide_sdk.Vm.Boot.{
  InitializeRequest, Database, Boot, Setup, Init, new_via_db, lift, modify, continue, ◌>>=◌,
}
use slide_sdk.Vm.Initialize.{
  register_metrics, connect_to, connect, dial_database, open_connections, prepare, initialize,
}
use slide_sdk.Vm.Initialize.Keeps.{
  Conns, conns, Keeps, Keeps-lift, Keeps-after_connections, Keeps-finish, Keeps-register_metrics,
}

-- The states of the connections, from that of a machine that was made with the connection `given`.
pub data Opened (given : Option ℕ) : Conns → Type 0 where
  nothing : Opened given (given, none, [])
  engine : (x : ℕ) → Opened given (some x, none, x ∷ [])
  both : (x y : ℕ) → Opened given (some x, some y, x ∷ y ∷ [])

module _ (given : Option ℕ) where
  abbrev Fresh : Conns → Type 0
  Fresh x = x ≡ (given, none, [])

  abbrev Engine : Conns → Type 0
  Engine x = (n : ℕ) × (x ≡ (some n, none, n ∷ []))

  -- From `P` a step leads to a state of the connections, and to `Q` where it returns.
  record Leads {A : Type 0} (P : Conns → Type 0) (m : Init A) (Q : Conns → Type 0) : Type 0 where
    at :
        (b : Boot) (tr : Trace)
        → P (conns b)
        → Opened given (conns (m b tr).1) × IfOk (λ (a : A). Q (conns (m b tr).1)) (m b tr).0

  module _ {A : Type 0} where
    IfOk-any : {P : Type 0} (r : Result A) → P → IfOk (λ (a : A). P) r
    IfOk-any (ok a) p = p
    IfOk-any (err e) p = tt
    IfOk-any panic p = tt

    Leads-keep :
        {P : Conns → Type 0} (m : Init A)
        → ((x : Conns) → P x → Opened given x)
        → Keeps m
        → Leads P m P
    Leads-keep {P} m o k = record {
      at = λ b tr p. let q = subst P (sym (k.at b tr)) p in (o _ q, IfOk-any (m b tr).0 q);
    }

  module _ {A B : Type 0} {Q R : Conns → Type 0} where
    Leads-continue :
        (r : Result A) (f : A → Init B)
        → ((a : A) → Leads Q (f a) R)
        → (b : Boot) (tr : Trace) → Opened given (conns b) × IfOk (λ (a : A). Q (conns b)) r
        → Opened given (conns (continue r f b tr).1)
          × IfOk (λ (a : B). R (conns (continue r f b tr).1)) (continue r f b tr).0
    Leads-continue (ok a) f h b tr (o, q) = (h a).at b tr q
    Leads-continue (err e) f h b tr (o, q) = (o, tt)
    Leads-continue panic f h b tr (o, q) = (o, tt)

    Leads-bind :
        {P : Conns → Type 0} (m : Init A) (f : A → Init B)
        → Leads P m Q
        → ((a : A) → Leads Q (f a) R)
        → Leads P (m >>= f) R
    unfolding ◌>>=◌
    Leads-bind m f k h = record {
      at = λ b tr p. let (r, b', tr') = m b tr in Leads-continue r f h b' tr' (k.at b tr p);
    }

  Fresh-Opened : (x : Conns) → Fresh x → Opened given x
  Fresh-Opened x e = subst (Opened given) (sym e) nothing

  Engine-Opened : (x : Conns) → Engine x → Opened given x
  Engine-Opened x (n, e) = subst (Opened given) (sym e) (engine n)

  module _ (env : Setup) where
    Leads-add :
        (n : ℕ)
        → Leads Fresh
            (modify
              (λ b. record b { conn_closer = add_closer n b.conn_closer; client_conn = some n }))
            Engine
    unfolding conns add_closer
    Leads-add n = record {
      at = λ b tr p.
          let e : conns
                (record b { conn_closer = add_closer n b.conn_closer; client_conn = some n })
              ≡ (some n, none, n ∷ []) =
            ground (arith, ap (λ (x : Conns). x.1) p, ap (λ (x : Conns). x.2) p) in
          (Engine-Opened _ (n, e), (n, e));
    }

    Leads-connect_to : (r : Result ℕ) → Leads Fresh (connect_to env r) Engine
    unfolding connect_to close_all conns ◌>>=◌
    Leads-connect_to (ok n) = Leads-add n
    Leads-connect_to (err e) = record {
      at = λ b tr p.
          let f : conns (record b { conn_closer = [] }) ≡ (given, none, []) =
            ground (arith, ap (λ (x : Conns). x.0) p, ap (λ (x : Conns). x.1) p) in
          (Fresh-Opened _ f, tt);
    }
    Leads-connect_to panic = record { at = λ b tr p. (Fresh-Opened _ p, tt) }

    Leads-connect :
        (req : InitializeRequest) (o : Option ℕ) → Leads Fresh (connect env req o) Engine
    unfolding connect
    Leads-connect req (some n) = Leads-add n
    Leads-connect req none =
        Leads-bind _ _
          (Leads-keep (lift (env.write_address req.server_addr)) Fresh-Opened (Keeps-lift _))
          (λ _. Leads-connect_to (env.dial req.server_addr))

    Leads-dial_database :
        (req : InitializeRequest) (d : Option Database)
        → Leads Engine (dial_database env req d) (Opened given)
    unfolding dial_database conns add_closer
    Leads-dial_database req (some db) = record {
      at = λ b tr p. (Engine-Opened _ p, Engine-Opened _ p);
    }
    Leads-dial_database req none =
        Leads-bind _ _
          (Leads-keep (lift (env.dial req.db_server_addr)) Engine-Opened (Keeps-lift _))
          (λ y. record {
            at = λ b tr (x, p).
                let e : conns (record b {
                  conn_closer = add_closer y b.conn_closer;
                  database_client = some y;
                  database = some (Database.remote y);
                })
                    ≡ (some x, some y, x ∷ y ∷ []) =
                  ground (arith, ap (λ (x : Conns). x.0) p, ap (λ (x : Conns). x.2) p) in
                let o = subst (Opened given) (sym e) (both x y) in (o, o);
          })

    Leads-open_connections :
        (req : InitializeRequest) → Leads Fresh (open_connections env req) (Opened given)
    unfolding open_connections conns
    Leads-open_connections req =
        Leads-bind _ _ (Leads-keep (register_metrics env) Fresh-Opened (Keeps-register_metrics env))
          λ _. Leads-bind _ _ (Leads-keep _ Fresh-Opened (record { at = λ b tr. refl })) λ o.
            Leads-bind _ _ (Leads-connect req o) λ _.
              Leads-bind _ _ (Leads-keep _ Engine-Opened (record { at = λ b tr. refl })) λ _.
                Leads-bind _ _ (Leads-keep _ Engine-Opened (record { at = λ b tr. refl }))
                  λ d. Leads-dial_database req d

    Leads-initialize :
        (lib : Library) (w : World) (req : InitializeRequest)
        → Leads Fresh (initialize env lib w req) (Opened given)
    unfolding initialize prepare
    Leads-initialize lib w req =
        Leads-bind _ _
          (Leads-bind _ _ (Leads-open_connections req)
            λ _. Leads-keep _ (λ x p. p) (Keeps-after_connections env req))
          λ prepared. Leads-keep _ (λ x p. p) (Keeps-finish env lib w req prepared)

-- Of a machine that was just made, whatever `Initialize` answers: it holds no connection that it opened;
-- or one to the engine; or one to the engine and one to the database. `Close` of its closer, which
-- `Shutdown` calls, closes these and no other, each once, whichever of them fail to close.
pub initialize-closes :
    (env : Setup) (lib : Library) (w : World) (close : ℕ → Option Error)
    (database : Option Database) (client opt_client : Option ℕ) (req : InitializeRequest)
    (tr : Trace)
    → let b = (initialize env lib w req (new_via_db database client opt_client) tr).1 in
      Opened client (b.client_conn, b.database_client, (close_all close b.conn_closer).1)
unfolding conns new_via_db close_all
initialize-closes env lib w close database client opt_client req tr =
    rw
      (close_each-all close
        (initialize env lib w req (new_via_db database client opt_client) tr).1.conn_closer)
      ((Leads-initialize client env lib w req).at (new_via_db database client opt_client) tr refl).0
