-- ===== src/Ibkr/Flex/Retries.antt =====
-- How long the service waits for a statement.
use zero_knowledge_aggregato.Base.{
  ℕ, zero, suc, ◌+◌, ◌≤◌, ◌<◌, ◌≡◌, refl, sym, inl, inr, String, Result, ok, err, because, Act,
  Result-cases, arith, handle, throw, subst,
}
use zero_knowledge_aggregato.Ibkr.Flex.{
  Client, Answer, ready, refused, not_ready, unclear, api_error, answer_of, go_on, attempt,
  get_flex_statement,
}

-- What is thrown is wrapped, and the state stays.
rethrown :
    {S A : Type 0} (r : Result A × S)
    → (handle (λ e. throw (because "Flex retrieval failed" e)) r).1 ≡ r.1
rethrown (ok a, s) = refl
rethrown (err e, s) = refl

module _ (client : Client) (token reference : String) where
  open client use {Net}

  -- From one state of the outside to another by answers that the statement is not ready.
  pub data Pending : ℕ → Net → Net → Type 0 where
    at_once : (s : Net) → Pending zero s s
    after :
        {n : ℕ} {s s1 s2 : Net} (xml : String)
        → client.get_statement token reference s ≡ (ok xml, s1)
        → answer_of client xml ≡ ok not_ready
        → Pending n s1 s2
        → Pending (suc n) s s2

  attempt-Pending :
      (n : ℕ) {k : ℕ} {s s1 s2 : Net} (xml : String)
      → Pending k s s1
      → k < n
      → client.get_statement token reference s1 ≡ (ok xml, s2)
      → answer_of client xml ≡ ok ready
      → attempt client token reference n s ≡ (ok xml, s2)
  attempt-Pending zero xml p l e a = absurd (omega (arith, l))
  attempt-Pending (suc n) xml (at_once s) l e a = rw (e, a) refl
  attempt-Pending (suc zero) xml (after y f b p) l e a = absurd (omega (arith, l))
  attempt-Pending (suc (suc n)) xml (after y f b p) l e a =
      rw (f, b) (attempt-Pending (suc n) xml p (omega (arith, l)) e a)

  attempt-exhausted :
      (n : ℕ) {s s1 : Net}
      → Pending (suc n) s s1
      → attempt client token reference (suc n) s ≡ (err api_error, s1)
  attempt-exhausted zero (after y f b (at_once _)) = rw (f, b) refl
  attempt-exhausted (suc n) (after y f b p) = rw (f, b) (attempt-exhausted n p)

  -- After fewer than twenty answers that the statement is not ready, a statement that comes is
  -- returned, and no request is made after it.
  pub get_flex_statement-Pending :
      {k : ℕ} {s s1 s2 : Net} (xml : String)
      → Pending k s s1
      → k < 20
      → client.get_statement token reference s1 ≡ (ok xml, s2)
      → answer_of client xml ≡ ok ready
      → get_flex_statement client token reference s ≡ (ok xml, s2)
  unfolding get_flex_statement
  get_flex_statement-Pending xml p l e a = rw (attempt-Pending 20 xml p l e a) refl

  -- The twentieth such answer ends the wait with an error.
  get_flex_statement-exhausted :
      {s s1 : Net}
      → Pending 20 s s1
      → get_flex_statement client token reference s
        ≡ (err (because "Flex retrieval failed" api_error), s1)
  unfolding get_flex_statement
  get_flex_statement-exhausted p = rw (attempt-exhausted 19 p) refl

  go_on-bounded :
      (asked : Net → ℕ) (n : ℕ) (rest : Act Net String) (xml : String) (a : Answer) (t : Net)
      → asked (rest t).1 ≤ asked t + n
      → asked (go_on client n rest xml a t).1 ≤ asked t + n
  go_on-bounded asked n rest xml ready t h = omega arith
  go_on-bounded asked n rest xml refused t h = omega arith
  go_on-bounded asked zero rest xml not_ready t h = omega arith
  go_on-bounded asked (suc n) rest xml not_ready t h = h
  go_on-bounded asked n rest xml unclear t h = h

  attempt-bounded :
      (asked : Net → ℕ) (n : ℕ) (s : Net)
      → ((t : Net) → asked (client.get_statement token reference t).1 ≡ asked t + 1)
      → asked (attempt client token reference n s).1 ≤ asked s + n
  attempt-bounded asked zero s counts = omega arith
  attempt-bounded asked (suc n) s counts =
      let s1 = (client.get_statement token reference s).1 in
      let more = attempt-bounded asked n s1 counts in
      elim (Result-cases (client.get_statement token reference s).0) [
        | inr (x, e) ↦ rw e (omega (arith, counts s))
        | inl (xml, e) ↦ elim (Result-cases (answer_of client xml)) [
          | inr (x, f) ↦ rw (e, f) (omega (arith, counts s))
          | inl (a, f) ↦
              let later = go_on-bounded asked n (attempt client token reference n) xml a s1 more in
              rw (e, f) (omega (arith, counts s, later))
        ]
      ]

  -- Waiting for a statement ends after at most twenty requests, whatever they are answered.
  pub get_flex_statement-bounded :
      (asked : Net → ℕ) (s : Net)
      → ((t : Net) → asked (client.get_statement token reference t).1 ≡ asked t + 1)
      → asked (get_flex_statement client token reference s).1 ≤ asked s + 20
  unfolding get_flex_statement
  get_flex_statement-bounded asked s counts =
      subst (λ t. asked t ≤ asked s + 20) (sym (rethrown (attempt client token reference 20 s)))
        (attempt-bounded asked 20 s counts)
