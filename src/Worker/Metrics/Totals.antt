-- ===== src/Worker/Metrics/Totals.antt =====
-- The totals of `getAggregatedMetrics` beside the newest snapshots that are stored.
use zero_knowledge_aggregato.Base.{
  ℕ, ◌≡◌, refl, sym, ap, ◌∙◌, String, Bool, true, false, Option, none, some, List, [], ◌∷◌, leb,
  Result, ok, Act, All, arith, Option-cases, continue, ◌>>=◌, str_eq, Bool-cases, inl, inr, subst,
}
use zero_knowledge_aggregato.Aggregator.Data.{Numbers}
use zero_knowledge_aggregato.Aggregator.Snapshots.{SnapshotData}
use zero_knowledge_aggregato.Worker.{Services, newest, exchanges_to_update, targets}
use zero_knowledge_aggregato.Worker.Metrics.{
  Metrics, no_metrics, later_time, add_snapshot, add_trades, add_exchanges, get_aggregated_metrics,
}

module _ (lower : String → String) (numbers : Numbers) (services : Services (numbers.Num)) where
  open numbers use {Num, nought, plus}
  open services use {State, View, view, active_exchanges}

  -- From a good state every read of the services answers, and leaves a good state.
  pub record Answering : Type 1 where
    pub Good : State → Type 0
    pub connections :
        (u : String) (s : State)
        → Good s
        → (l : List String) × ((services.get_connections_by_user u s).0 ≡ ok l)
          × Good (services.get_connections_by_user u s).1
    pub latest :
        (u e : String) (s : State)
        → Good s
        → (o : Option (SnapshotData Num)) × ((services.get_latest_snapshot_data u e s).0 ≡ ok o)
          × Good (services.get_latest_snapshot_data u e s).1
    pub trades :
        (u e : String) (s : State)
        → Good s
        → (n : Option ℕ) × ((services.get_total_trades u e s).0 ≡ ok n)
          × Good (services.get_total_trades u e s).1

  abbrev pub plus_figure : (SnapshotData Num → Num) → Option (SnapshotData Num) → Num → Num
  plus_figure f none total = total
  plus_figure f (some s) total = plus total (f s)

  -- A figure of the newest snapshots of a user, added up over exchanges in their order.
  abbrev pub total_of : (SnapshotData Num → Num) → View → String → List String → Num → Num
  total_of f v user [] total = total
  total_of f v user (ex ∷ rest) total =
      total_of f v user rest (plus_figure f (newest services v user ex) total)

  abbrev pub latest_of : View → String → List String → Option ℕ → Option ℕ
  latest_of v user [] last = last
  latest_of v user (ex ∷ rest) last = latest_of v user rest (elim (newest services v user ex) [
    | none ↦ last
    | some s ↦ some (later_time lower numbers services s.timestamp last)
  ])

  pub record Sums (v : View) (user : String) (exs : List String) (m m' : Metrics Num) : Type 0 where
    pub equity : m'.total_equity ≡ total_of (λ s. s.total_equity) v user exs m.total_equity
    pub balance : m'.total_balance ≡ total_of (λ s. s.realized_balance) v user exs m.total_balance
    pub unrealized :
        m'.total_unrealized_pnl ≡ total_of (λ s. s.unrealized_pnl) v user exs m.total_unrealized_pnl
    pub last : m'.last_sync ≡ latest_of v user exs m.last_sync

  Sums-step :
      (v : View) (user ex : String) (rest : List String) (n : Option ℕ)
      (o : Option (SnapshotData Num)) (m m' : Metrics Num)
      → newest services v user ex ≡ o
      → Sums v user rest
          (add_trades lower numbers services n (add_snapshot lower numbers services o m))
          m'
      → Sums v user (ex ∷ rest) m m'
  Sums-step v user ex rest n none m m' e h = record {
    equity = rw e h.equity;
    balance = rw e h.balance;
    unrealized = rw e h.unrealized;
    last = rw e h.last;
  }
  Sums-step v user ex rest n (some s) m m' e h = record {
    equity = rw e h.equity;
    balance = rw e h.balance;
    unrealized = rw e h.unrealized;
    last = rw e h.last;
  }

  -- From a state with the view `v`, the loop returns the sums over its exchanges.
  abbrev pub Returns :
      View → String → List String → Metrics Num → Result (Metrics Num) × State → Type 0
  Returns v user exs m r =
      (m' : Metrics Num) × (r.0 ≡ ok m') × Sums v user exs m m' × (view r.1 ≡ v)

  continue-ok :
      {A B : Type 0} (r : Result A × State) (f : A → Act State B) (a : A)
      → r.0 ≡ ok a
      → continue f r ≡ f a r.1
  continue-ok (r, w) f a e = rw e refl

  add_exchanges-Returns :
      (answering : Answering) (v : View) (user : String) (exs : List String) (m : Metrics Num)
      (w : State)
      → answering.Good w
      → view w ≡ v
      → Returns v user exs m (add_exchanges lower numbers services user exs m w)
  add_exchanges-Returns answering v user [] m w g e =
      (m, refl, record { equity = refl; balance = refl; unrealized = refl; last = refl }, e)
  add_exchanges-Returns answering v user (ex ∷ rest) m w g e =
      let r = services.get_latest_snapshot_data user ex w in
      let (o, answered, g1) = answering.latest user ex w g in
      let q = services.get_total_trades user ex r.1 in
      let (n, counted, g2) = answering.trades user ex r.1 g1 in
      let m1 = add_trades lower numbers services n (add_snapshot lower numbers services o m) in
      let (m', done, sums, kept) =
        add_exchanges-Returns answering v user rest m1 q.1 g2
          (services.trades-view user ex r.1 ∙ services.latest-view user ex w ∙ e) in
      let stored : newest services v user ex ≡ o =
        sym (services.latest_lem user ex w o answered ∙ ap (λ x. newest services x user ex) e) in
      let first =
        continue-ok r
          (λ s. services.get_total_trades user ex >>= λ k.
            add_exchanges lower numbers services user rest
              (add_trades lower numbers services k (add_snapshot lower numbers services s m)))
          o answered in
      let second =
        continue-ok q
          (λ k.
            add_exchanges lower numbers services user rest
              (add_trades lower numbers services k (add_snapshot lower numbers services o m)))
          n counted in
      let run = first ∙ second in
      (
        m',
        ap (λ x. x.0) run ∙ done,
        Sums-step v user ex rest n o m m' stored sums,
        ap (λ x. view x.1) run ∙ kept,
      )

  -- The time of a snapshot is not after the last sync.
  abbrev pub covered : Option (SnapshotData Num) → Option ℕ → Bool
  covered none last = true
  covered (some s) none = false
  covered (some s) (some t) = leb s.timestamp t

  abbrev pub later_of : Option (SnapshotData Num) → Option ℕ → Option ℕ
  later_of none last = last
  later_of (some s) last = some (later_time lower numbers services s.timestamp last)

  covered-later :
      (s o : Option (SnapshotData Num)) (last : Option ℕ)
      → covered s last ≡ true
      → covered s (later_of o last) ≡ true
  covered-later s none last h = h
  covered-later none (some r) last h = refl
  covered-later (some s) (some r) none h = absurd (cc h)
  covered-later (some s) (some r) (some t) h = ground arith

  covered-later_self :
      (o : Option (SnapshotData Num)) (last : Option ℕ) → covered o (later_of o last) ≡ true
  covered-later_self none last = refl
  covered-later_self (some s) none = ground arith
  covered-later_self (some s) (some t) = ground arith

  latest_of-step :
      (v : View) (user ex : String) (rest : List String) (last : Option ℕ)
      → latest_of v user (ex ∷ rest) last
        ≡ latest_of v user rest (later_of (newest services v user ex) last)
  latest_of-step v user ex rest last = elim (Option-cases (newest services v user ex)) [
    | inl e ↦ rw e refl
    | inr (s, e) ↦ rw e refl
  ]

  covered-latest_of :
      (v : View) (user : String) (s : Option (SnapshotData Num)) (exs : List String)
      (last : Option ℕ)
      → covered s last ≡ true
      → covered s (latest_of v user exs last) ≡ true
  covered-latest_of v user s [] last h = h
  covered-latest_of v user s (ex ∷ rest) last h =
      ap (covered s) (latest_of-step v user ex rest last)
      ∙ covered-latest_of v user s rest _ (covered-later s (newest services v user ex) last h)

  All-covered :
      (v : View) (user : String) (exs : List String) (last : Option ℕ)
      → All (λ ex. covered (newest services v user ex) (latest_of v user exs last) ≡ true) exs
  All-covered v user [] last = tt
  All-covered v user (ex ∷ rest) last = rw (latest_of-step v user ex rest last) (
    covered-latest_of v user (newest services v user ex) rest _
        (covered-later_self (newest services v user ex) last),
    All-covered v user rest _,
  )

  exchanges_listed :
      (answering : Answering) (user : String) (exchange : Option String) (w : State)
      → answering.Good w
      → let r = exchanges_to_update lower numbers services user exchange w in
        (r.0 ≡ ok (targets exchange (active_exchanges (view w) user)))
        × (view r.1 ≡ view w)
        × answering.Good r.1
  exchanges_listed answering user none w g =
      let (l, e, g1) = answering.connections user w g in
      (e ∙ ap ok (services.connections_lem user w l e), services.connections-view user w, g1)
  exchanges_listed answering user (some ex) w g =
      let (l, e, g1) = answering.connections user w g in
      elim (Bool-cases (str_eq ex "")) [
        | inl h ↦
            rw h (
              e ∙ ap ok (services.connections_lem user w l e),
              services.connections-view user w,
              g1,
            )
        | inr h ↦ rw h (refl, refl, g)
      ]

  -- Where every read answers, the metrics are returned: equity, balance and unrealized profit are the
  -- sums over the newest snapshots of the named exchange, or of the user's active ones if none is
  -- named, and none of these snapshots is later than the last sync. Nothing stored changes.
  pub get_aggregated_metrics-Sums :
      (answering : Answering) (user : String) (exchange : Option String) (w : State)
      → answering.Good w
      → let v = view w in
        let exs = targets exchange (active_exchanges v user) in
        let r = get_aggregated_metrics lower numbers services user exchange w in
        (m : Metrics Num) × (r.0 ≡ ok m)
        × (m.total_equity ≡ total_of (λ s. s.total_equity) v user exs nought)
        × (m.total_balance ≡ total_of (λ s. s.realized_balance) v user exs nought)
        × (m.total_unrealized_pnl ≡ total_of (λ s. s.unrealized_pnl) v user exs nought)
        × All (λ ex. covered (newest services v user ex) m.last_sync ≡ true) exs
        × (view r.1 ≡ v)
  unfolding get_aggregated_metrics
  get_aggregated_metrics-Sums answering user exchange w g =
      let v = view w in
      let exs = targets exchange (active_exchanges v user) in
      let q = exchanges_to_update lower numbers services user exchange w in
      let (listed, kept, g1) = exchanges_listed answering user exchange w g in
      let (m, done, sums, same) =
        add_exchanges-Returns answering v user exs (no_metrics lower numbers services) q.1 g1
          kept in
      let run =
        continue-ok q
          (λ l. add_exchanges lower numbers services user l (no_metrics lower numbers services)) exs
          listed in
      (
        m,
        ap (λ x. x.0) run ∙ done,
        sums.equity,
        sums.balance,
        sums.unrealized,
        subst (λ t. All (λ ex. covered (newest services v user ex) t ≡ true) exs) (sym sums.last)
            (All-covered v user exs none),
        ap (λ x. view x.1) run ∙ same,
      )
