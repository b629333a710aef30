-- ===== src/Server/Untrusted.antt =====
-- What a request must be for the handlers of the server to act on it.
use zero_knowledge_aggregato.Base.{
  ℕ, ◌+◌, ◌≤◌, ◌<◌, ◌≡◌, refl, sym, ◌∙◌, ◌⊎◌, String, Bool, true, false, ◌&&◌, Option, none, some,
  List, map, str_eq, Bool-cases, Option-cases, &&-true, inl, inr, Result, Act, ok, err, arith,
  Result-cases, eq_iff, pure, subst, continue, handle as handle_error,
}
use zero_knowledge_aggregato.Aggregator.Data.{Numbers, Symbol}
use zero_knowledge_aggregato.Aggregator.Snapshots.{SnapshotData}
use zero_knowledge_aggregato.Factory.{includes}
use zero_knowledge_aggregato.Server.Schemas.{
  optional, is_range, timestamp_schema, sync_types, of_length,
}
use zero_knowledge_aggregato.Server.Texts.{
  IsSafeText, user_uid_schema-IsSafeText, exchange_schema-IsSafeText,
}
use zero_knowledge_aggregato.Server.{
  EnclaveWorker, Request, Reply, process_sync_job, get_aggregated_metrics, get_snapshot_time_series,
  create_user_connection, health_check, invalid_argument, internal, time_series_reply,
  TimeSeriesRequest, SyncJobRequest, ConnectionRequest, handle, handle_sync_job, handle_metrics,
  handle_time_series, handle_connection, handle_health, if_valid, series_between, unless_empty,
  unless_zero, time_of, is_user, is_exchange, passphrase_of, snapshot_message, or_incremental,
  health_message, health_reply,
}

some-injective : {A : Type 0} {a b : A} → some a ≡ some b → a ≡ b
some-injective e = cc

module _ (units : String → Symbol) (numbers : Numbers) (worker : EnclaveWorker (numbers.Num)) where
  open numbers use {Num}
  open worker use {State}

  abbrev pub HasSafeUser : String → Type 0
  HasSafeUser user = IsSafeText 15 55 (units user)

  -- An exchange that may be left out.
  abbrev pub HasSafeExchange : String → Type 0
  HasSafeExchange exchange = (exchange ≡ "") ⊎ IsSafeText 1 50 (units exchange)

  abbrev pub HasSafeNames : Request → Type 0
  HasSafeNames (process_sync_job q) = HasSafeUser q.user_uid × HasSafeExchange q.exchange
  HasSafeNames (get_aggregated_metrics q) = HasSafeUser q.user_uid × HasSafeExchange q.exchange
  HasSafeNames (get_snapshot_time_series q) = HasSafeUser q.user_uid × HasSafeExchange q.exchange
  HasSafeNames (create_user_connection q) =
      HasSafeUser q.user_uid × IsSafeText 1 50 (units q.exchange)
  HasSafeNames health_check = Unit {0}

  -- A reply is given, and it refuses the request with nothing changed or the request is safe.
  abbrev IsGuarded : Type 0 → State → Result (Reply Num) × State → Type 0
  IsGuarded Safe s r =
      ((reply : Reply Num) × (r.0 ≡ ok reply)) × ((r ≡ (ok invalid_argument, s)) ⊎ Safe)

  if_valid-IsGuarded :
      {A : Type 0} (Safe : Type 0) (b : Bool) (job : Act State A) (f : A → Reply Num) (s : State)
      → (b ≡ true → Safe)
      → IsGuarded Safe s (if_valid units numbers worker b job f s)
  if_valid-IsGuarded Safe false job f s safe = ((invalid_argument, refl), inl refl)
  if_valid-IsGuarded Safe true job f s safe = elim (Result-cases (job s).0) [
    | inl (a, e) ↦ ((f a, rw e refl), inr (safe refl))
    | inr (m, e) ↦ ((internal m, rw e refl), inr (safe refl))
  ]

  optional-safe :
      (exchange : String)
      → optional (is_exchange units numbers) (unless_empty exchange) ≡ true
      → HasSafeExchange exchange
  optional-safe exchange e = elim (Bool-cases (str_eq exchange "")) [
    | inl empty ↦ inl ((eq_iff exchange "").0 empty)
    | inr here ↦ inr (exchange_schema-IsSafeText (units exchange) (sym (rw here refl) ∙ e))
  ]

  abbrev are_named : String → String → Bool
  are_named user exchange =
      is_user units numbers user && optional (is_exchange units numbers) (unless_empty exchange)

  &&-left : (a b : Bool) → (a && b) ≡ true → a ≡ true
  &&-left a b e = (&&-true a b e).0

  names-safe :
      (user exchange : String)
      → are_named user exchange ≡ true
      → HasSafeUser user × HasSafeExchange exchange
  names-safe user exchange e =
      let (a, b) =
        &&-true (is_user units numbers user)
          (optional (is_exchange units numbers) (unless_empty exchange)) e in
      (user_uid_schema-IsSafeText (units user) a, optional-safe exchange b)

  series_between-IsGuarded :
      (q : TimeSeriesRequest) (start stop : Option (Option ℕ)) (s : State)
      → HasSafeUser q.user_uid × HasSafeExchange q.exchange
      → IsGuarded
          (HasSafeUser q.user_uid × HasSafeExchange q.exchange)
          s
          (series_between units numbers worker q start stop s)
  series_between-IsGuarded q (some start) (some stop) s safe =
      if_valid-IsGuarded (HasSafeUser q.user_uid × HasSafeExchange q.exchange) (is_range start stop)
        _ _ s (λ _. safe)
  series_between-IsGuarded q (some start) none s safe = ((invalid_argument, refl), inl refl)
  series_between-IsGuarded q none stop s safe = ((invalid_argument, refl), inl refl)

  handle_sync_job-IsGuarded :
      (now : ℕ) (q : SyncJobRequest) (s : State)
      → IsGuarded
          (HasSafeUser q.user_uid × HasSafeExchange q.exchange)
          s
          (handle units numbers worker now (process_sync_job q) s)
  unfolding handle handle_sync_job
  handle_sync_job-IsGuarded now q s =
      let types = includes sync_types (or_incremental q.sync_type) in
      if_valid-IsGuarded (HasSafeUser q.user_uid × HasSafeExchange q.exchange)
        (are_named q.user_uid q.exchange && types) _ _ s
        (λ e. names-safe q.user_uid q.exchange (&&-left (are_named q.user_uid q.exchange) types e))

  handle_connection-IsGuarded :
      (now : ℕ) (q : ConnectionRequest) (s : State)
      → IsGuarded
          (HasSafeUser q.user_uid × IsSafeText 1 50 (units q.exchange))
          s
          (handle units numbers worker now (create_user_connection q) s)
  unfolding handle handle_connection
  handle_connection-IsGuarded now q s =
      let u = is_user units numbers q.user_uid in
      let x = is_exchange units numbers q.exchange in
      let l = of_length 1 100 (units q.label) in
      let k = of_length 1 500 q.api_key in
      let t = of_length 1 500 q.api_secret in
      let p = optional (of_length 0 500) (passphrase_of q.passphrase) in
      if_valid-IsGuarded (HasSafeUser q.user_uid × IsSafeText 1 50 (units q.exchange))
        (u && x && l && k && t && p) _ _ s
        (λ e.
          let named = &&-left (u && x) l (
            &&-left (u && x && l) k
              (&&-left (u && x && l && k) t (&&-left (u && x && l && k && t) p e))) in
          let (a, b) = &&-true u x named in
          (
            user_uid_schema-IsSafeText (units q.user_uid) a,
            exchange_schema-IsSafeText (units q.exchange) b,
          ))

  handle_time_series-IsGuarded :
      (now : ℕ) (q : TimeSeriesRequest) (s : State)
      → IsGuarded
          (HasSafeUser q.user_uid × HasSafeExchange q.exchange)
          s
          (handle units numbers worker now (get_snapshot_time_series q) s)
  unfolding handle handle_time_series
  handle_time_series-IsGuarded now q s = elim (Bool-cases (are_named q.user_uid q.exchange)) [
    | inl named ↦ rw named (
        series_between-IsGuarded q (time_of units numbers now (unless_zero q.start_date))
          (time_of units numbers now (unless_zero q.end_date)) s
          (names-safe q.user_uid q.exchange named))
    | inr unnamed ↦ rw unnamed ((invalid_argument, refl), inl refl)
  ]

  handle_health-replies :
      (now : ℕ) (s : State)
      → IsGuarded (Unit {0}) s (handle units numbers worker now health_check s)
  unfolding handle handle_health
  handle_health-replies now s = elim (Result-cases (worker.health_check s).0) [
    | inl (h, e) ↦ ((health_message units numbers worker h, rw e refl), inr tt)
    | inr (m, e) ↦ ((health_reply 1 true "error" 0, rw e refl), inr tt)
  ]

  -- Whatever the worker does, every request gets a reply. It is either the refusal INVALID_ARGUMENT with
  -- the worker's state as it was, or the request names a user by 15 to 55 letters, digits, dashes or
  -- underscores and an exchange by 1 to 50 of these; the exchange may be empty where it is optional, and
  -- a health check names neither.
  pub handle-HasSafeNames :
      (now : ℕ) (q : Request) (s : State)
      → let r = handle units numbers worker now q s in
        ((reply : Reply Num) × (r.0 ≡ ok reply)) × ((r ≡ (ok invalid_argument, s)) ⊎ HasSafeNames q)
  handle-HasSafeNames now (process_sync_job q) s = handle_sync_job-IsGuarded now q s
  handle-HasSafeNames now (get_aggregated_metrics q) s =
      unfold handle handle_metrics in
      if_valid-IsGuarded (HasSafeUser q.user_uid × HasSafeExchange q.exchange)
        (are_named q.user_uid q.exchange) _ _ s (names-safe q.user_uid q.exchange)
  handle-HasSafeNames now (get_snapshot_time_series q) s = handle_time_series-IsGuarded now q s
  handle-HasSafeNames now (create_user_connection q) s = handle_connection-IsGuarded now q s
  handle-HasSafeNames now health_check s = handle_health-replies now s

  -- A time that is given is positive and less than a day ahead.
  abbrev pub IsWithinReach : ℕ → Option ℕ → Type 0
  IsWithinReach now none = Unit {0}
  IsWithinReach now (some t) = (0 < t) × (t < now + 86400000)

  -- Where both ends are given they are in order, and at most five years apart.
  abbrev pub AreOrdered : Option ℕ → Option ℕ → Type 0
  AreOrdered none stop = Unit {0}
  AreOrdered (some a) none = Unit {0}
  AreOrdered (some a) (some b) = (a < b) × (b ≤ a + 157680000000)

  is_range-AreOrdered : (a b : Option ℕ) → is_range a b ≡ true → AreOrdered a b
  is_range-AreOrdered none b e = tt
  is_range-AreOrdered (some a) none e = tt
  is_range-AreOrdered (some a) (some b) e = ground (arith, e)

  timestamp_schema-IsWithinReach :
      (now : ℕ) (u : Symbol) (t : ℕ) → timestamp_schema now u ≡ some t → IsWithinReach now (some t)
  unfolding timestamp_schema
  timestamp_schema-IsWithinReach now u t e = ground (arith, e)

  time_of-IsWithinReach :
      (now : ℕ) (text : Option String) (o : Option ℕ)
      → time_of units numbers now text ≡ some o
      → IsWithinReach now o
  time_of-IsWithinReach now none o e =
      let given : none ≡ o = cc in subst (IsWithinReach now) given tt
  time_of-IsWithinReach now (some text) o e =
      elim (Option-cases (timestamp_schema now (units text))) [
        | inl h ↦ let never : none ≡ some o = sym (rw (time_of, h) refl) ∙ e in cc
        | inr (t, h) ↦
            let given : some t ≡ o = some-injective (sym (rw (time_of, h) refl) ∙ e) in
            subst (IsWithinReach now) given (timestamp_schema-IsWithinReach now (units text) t h)
      ]

  -- The reply to what the worker gives.
  abbrev pub answered : Result (List (SnapshotData Num)) × State → Result (Reply Num) × State
  answered (ok ss, s) = (ok (time_series_reply (map (snapshot_message units numbers) ss)), s)
  answered (err e, s) = (ok (internal e), s)

  abbrev as_reply : Result (Reply Num) × State → Result (Reply Num) × State
  as_reply = handle_error (λ e. pure (internal e))

  answered_lem :
      (r : Result (List (SnapshotData Num)) × State)
      → as_reply
          (continue (λ ss. pure (time_series_reply (map (snapshot_message units numbers) ss))) r)
        ≡ answered r
  answered_lem (ok ss, s) = refl
  answered_lem (err e, s) = refl

  -- A request for a time series is refused as INVALID_ARGUMENT with the worker's state as it was, or
  -- the worker is asked for the user and the exchange of the request and for times that are each absent
  -- or positive and less than a day ahead, in order where both are given, and at most five years apart;
  -- its snapshots are the reply, and what it throws is answered as INTERNAL.
  pub handle_time_series-AreOrdered :
      (now : ℕ) (q : TimeSeriesRequest) (s : State)
      → let r = handle units numbers worker now (get_snapshot_time_series q) s in
        (r ≡ (ok invalid_argument, s))
        ⊎ ((start stop : Option ℕ) × IsWithinReach now start
            × IsWithinReach now stop
            × AreOrdered start stop
            × (r
                ≡ answered (
                    worker.get_snapshot_time_series q.user_uid
                      (unless_empty q.exchange)
                      start
                      stop
                      s)))
  unfolding handle handle_time_series
  handle_time_series-AreOrdered now q s =
      let from = time_of units numbers now (unless_zero q.start_date) in
      let till = time_of units numbers now (unless_zero q.end_date) in
      elim (Bool-cases (are_named q.user_uid q.exchange)) [
        | inr unnamed ↦ inl (rw unnamed refl)
        | inl named ↦ elim (Option-cases from) [
          | inl e ↦ inl (rw (named, e) refl)
          | inr (start, e) ↦ elim (Option-cases till) [
            | inl f ↦ inl (rw (named, e, f) refl)
            | inr (stop, f) ↦ elim (Bool-cases (is_range start stop)) [
              | inr out ↦ inl (rw (named, e, f, out) refl)
              | inl inside ↦ inr (
                start,
                stop,
                time_of-IsWithinReach now (unless_zero q.start_date) start e,
                time_of-IsWithinReach now (unless_zero q.end_date) stop f,
                is_range-AreOrdered start stop inside,
                rw (named, e, f, inside)
                    (answered_lem (
                      worker.get_snapshot_time_series q.user_uid (unless_empty q.exchange) start
                        stop s)),
              )
            ]
          ]
        ]
      ]
