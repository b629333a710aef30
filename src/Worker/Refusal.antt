-- ===== src/Worker/Refusal.antt =====
-- `processSyncJob` for a user who has a snapshot.
use zero_knowledge_aggregato.Base.{
  ◌≡◌, refl, sym, ap, ◌∙◌, ◌⊎◌, inl, inr, String, false, Option, none, some, List, [], ◌∷◌, Memᴰ,
  Result, ok, err, Error, Act, subst, continue, handle, pure,
}
use zero_knowledge_aggregato.Aggregator.Data.{Numbers}
use zero_knowledge_aggregato.Aggregator.Snapshots.{SnapshotData}
use zero_knowledge_aggregato.Worker.{
  Services, newest, SyncJobResponse, targets, blocked, refuse_or, check_exchanges,
  check_manual_sync_allowed, unless_blocked, process_sync_job, build_error_response,
}

module _ (lower : String → String) (numbers : Numbers) (services : Services (numbers.Num)) where
  open numbers use {Num}
  open services use {State, view, active_exchanges}

  -- Of a check: it threw or refused, and what is stored is as it was.
  abbrev pub Refuses : State → Result (Option (SyncJobResponse Num)) × State → Type 0
  Refuses w r =
      (view r.1 ≡ view w)
      × (((e : Error) × (r.0 ≡ err e))
          ⊎ ((ex : String) × (r.0 ≡ ok (some (blocked lower numbers services ex)))))

  refuse_or-Refuses :
      (w : State) (ex : String) (rest : Act State (Option (SyncJobResponse Num)))
      (r : Result (Option (SnapshotData Num)) × State)
      → view r.1 ≡ view w
      → (r.0 ≡ ok none → Refuses r.1 (rest r.1))
      → Refuses w (continue (refuse_or lower numbers services ex rest) r)
  refuse_or-Refuses w ex rest (ok (some s), w') v h = (v, inr (ex, refl))
  refuse_or-Refuses w ex rest (ok none, w') v h = ((h refl).0 ∙ v, (h refl).1)
  refuse_or-Refuses w ex rest (err e, w') v h = (v, inl (e, refl))

  check_exchanges-Refuses :
      (user ex : String) (exs : List String) (w : State) (snapshot : SnapshotData Num)
      → Memᴰ ex exs
      → newest services (view w) user ex ≡ some snapshot
      → Refuses w (check_exchanges lower numbers services user exs w)
  check_exchanges-Refuses user ex [] w snapshot m found = elim m [ ]
  check_exchanges-Refuses user ex (y ∷ rest) w snapshot (Memᴰ.head e) found =
      refuse_or-Refuses w y (check_exchanges lower numbers services user rest)
        (services.get_latest_snapshot_data user y w) (services.latest-view user y w)
        (λ h. absurd (cc (services.latest_lem user y w none h, found, e)))
  check_exchanges-Refuses user ex (y ∷ rest) w snapshot (Memᴰ.tail m) found =
      refuse_or-Refuses w y (check_exchanges lower numbers services user rest)
        (services.get_latest_snapshot_data user y w) (services.latest-view user y w)
        (λ h.
          check_exchanges-Refuses user ex rest _ snapshot m
            (ap (λ v. newest services v user ex) (services.latest-view user y w) ∙ found))

  check_listed-Refuses :
      (user ex : String) (exchange : Option String) (w : State) (snapshot : SnapshotData Num)
      (r : Result (List String) × State)
      → view r.1 ≡ view w
      → ((exs : List String) → r.0 ≡ ok exs → exs ≡ active_exchanges (view w) user)
      → Memᴰ ex (targets exchange (active_exchanges (view w) user))
      → newest services (view w) user ex ≡ some snapshot
      → Refuses w (
          continue
            (λ listed. check_exchanges lower numbers services user (targets exchange listed))
            r)
  check_listed-Refuses user ex exchange w snapshot (err e, w') v h m found = (v, inl (e, refl))
  check_listed-Refuses user ex exchange w snapshot (ok exs, w') v h m found =
      let m' = subst (λ l. Memᴰ ex (targets exchange l)) (sym (h exs refl)) m in
      let k =
        check_exchanges-Refuses user ex (targets exchange exs) w' snapshot m'
          (ap (λ x. newest services x user ex) v ∙ found) in
      (k.0 ∙ v, k.1)

  refused_job :
      (user : String) (exchange : Option String) (w : State)
      (r : Result (Option (SyncJobResponse Num)) × State)
      → Refuses w r
      → let j =
          handle
            (λ e. pure (build_error_response exchange e))
            (continue (unless_blocked lower numbers services user exchange) r) in
        (response : SyncJobResponse Num) × (j.0 ≡ ok response)
        × (response.success ≡ false)
        × (response.synced ≡ 0)
        × (response.snapshots_generated ≡ 0)
        × (view j.1 ≡ view w)
  refused_job user exchange w (ok (some response), w') (v, inr (ex, e)) =
      let same : response ≡ blocked lower numbers services ex = cc e in
      (
        response,
        refl,
        ap (λ x. x.success) same,
        ap (λ x. x.synced) same,
        ap (λ x. x.snapshots_generated) same,
        v,
      )
  refused_job user exchange w (ok (some response), w') (v, inl (x, e)) = absurd (cc e)
  refused_job user exchange w (ok none, w') (v, inl (x, e)) = absurd (cc e)
  refused_job user exchange w (ok none, w') (v, inr (x, e)) = absurd (cc e)
  refused_job user exchange w (err x, w') (v, h) =
      (build_error_response exchange x, refl, refl, refl, refl, v)

  -- A job of a user who has a snapshot of the named exchange, or of any active one if none is named,
  -- is answered by a failure with nothing synced and nothing generated, even where a read throws, and
  -- what is stored of connections and snapshots is as it was: the first sync cannot be repeated.
  pub process_sync_job-blocked :
      (user ex : String) (exchange : Option String) (w : State) (snapshot : SnapshotData Num)
      → Memᴰ ex (targets exchange (active_exchanges (view w) user))
      → newest services (view w) user ex ≡ some snapshot
      → let j = process_sync_job lower numbers services user exchange w in
        (response : SyncJobResponse Num) × (j.0 ≡ ok response)
        × (response.success ≡ false)
        × (response.synced ≡ 0)
        × (response.snapshots_generated ≡ 0)
        × (view j.1 ≡ view w)
  unfolding process_sync_job check_manual_sync_allowed
  process_sync_job-blocked user ex exchange w snapshot m found = refused_job user exchange w _ (
      check_listed-Refuses user ex exchange w snapshot (services.get_connections_by_user user w)
        (services.connections-view user w) (services.connections_lem user w) m found)
