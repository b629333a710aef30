-- ===== src/Factory/Support.antt =====
-- `isSupported` and `create` agree.
use zero_knowledge_aggregato.Base.{
  String, ◌≡◌, refl, ◌↔◌, Bool, true, false, ◌||◌, none, some, List, [], ◌∷◌, str_eq, eq_iff, err,
  arith, inl, inr, Bool-cases, ◌≢◌,
}
use zero_knowledge_aggregato.Factory.{
  Credentials, ccxt_exchanges, custom_brokers, includes, lookup_name, has_own, unsupported, create,
  is_supported, create_custom_broker_connector, new_ccxt,
}

lookup_name-none :
    (table : List (String × String)) (s : String)
    → has_own table s ≡ false
    → lookup_name table s ≡ none
lookup_name-none [] s h = refl
lookup_name-none ((k, v) ∷ rest) s h = ground (arith, lookup_name-none rest s)

lookup_name-some :
    (table : List (String × String)) (s : String)
    → has_own table s ≡ true
    → (id : String) × (lookup_name table s ≡ some id)
lookup_name-some [] s h = absurd (cc h)
lookup_name-some ((k, v) ∷ rest) s h = elim (Bool-cases (str_eq k s)) [
  | inl e ↦ (v, rw e)
  | inr e ↦ let (id, found) = lookup_name-some rest s (rw e at h) in (id, rw (e, found))
]

or-true : (a : Bool) → (a || true) ≡ true
or-true true = refl
or-true false = refl

or-false : (a : Bool) → (a || false) ≡ a
or-false true = refl
or-false false = refl

module _ (lower : String → String) (ccxt_has : String → Bool) where
  broker-ne-unsupported :
      (exchange : String) (c : Credentials)
      → create_custom_broker_connector lower ccxt_has exchange c ≢ err unsupported
  broker-ne-unsupported exchange c e = ground (
    arith,
    eq_iff "IBKR Flex requires apiKey (token) and apiSecret (queryId)" "Unsupported exchange",
    eq_iff "Alpaca requires apiKey and apiSecret" "Unsupported exchange",
    eq_iff "Custom broker not implemented" "Unsupported exchange",
  )

  ccxt-ne-unsupported : (id : String) → new_ccxt lower ccxt_has id ≢ err unsupported
  ccxt-ne-unsupported id e =
      ground (arith, eq_iff "Exchange not supported by CCXT." "Unsupported exchange")

  -- The factory rejects a name as unsupported exactly when `isSupported` denies it.
  create-eq-unsupported_iff :
      (c : Credentials)
      → (create lower ccxt_has c ≡ err unsupported)
        ↔ (is_supported lower ccxt_has c.exchange ≡ false)
  unfolding create is_supported
  create-eq-unsupported_iff c = elim (Bool-cases (includes custom_brokers (lower c.exchange))) [
    | inl broker ↦
        rw (broker, or-true (has_own ccxt_exchanges (lower c.exchange)))
          (λ e. absurd (broker-ne-unsupported (lower c.exchange) c e), λ e. cc)
    | inr other ↦
        rw (other, or-false (has_own ccxt_exchanges (lower c.exchange)))
          (elim (Bool-cases (has_own ccxt_exchanges (lower c.exchange))) [
            | inl own ↦
                let (id, found) = lookup_name-some ccxt_exchanges (lower c.exchange) own in
                rw (own, found) (λ e. absurd (ccxt-ne-unsupported id e), λ e. cc)
            | inr none_own ↦
                rw (none_own, lookup_name-none ccxt_exchanges (lower c.exchange) none_own)
                  (λ e. refl, λ e. refl)
          ])
  ]
