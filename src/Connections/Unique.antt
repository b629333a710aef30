-- ===== src/Connections/Unique.antt =====
-- `getUniqueCredentialsForUser`: one connection for each account.
use zero_knowledge_aggregato.Base.{
  ◌≡◌, refl, sym, subst, ap, ◌∙◌, String, Bool, true, false, ◌||◌, List, [], ◌∷◌, ◌++◌, map, keep,
  ok, str_eq, eq_iff, All, Memᴰ, Bool-cases, inl, inr, arith,
}
use zero_knowledge_aggregato.Prisma.{Table, healthy}
use zero_knowledge_aggregato.Factory.{includes}
use zero_knowledge_aggregato.Connections.{
  ConnectionRow, Collected, visit, visit_all, no_connections, is_of_user,
  get_unique_credentials_for_user,
}

abbrev pub hash_of : ConnectionRow → String
hash_of r = r.credentials_hash

-- No text of a list comes again later in it.
abbrev pub NoRepeats : List String → Type 0
NoRepeats [] = Unit
NoRepeats (h ∷ hs) = (includes hs h ≡ false) × NoRepeats hs

-- A connection without a hash is passed over; the hash of any other is in the list.
abbrev pub accounted : List String → ConnectionRow → Bool
accounted hs r = str_eq r.credentials_hash "" || includes hs r.credentials_hash

pub includes-append :
    (hs : List String) (h k : String) → includes (hs ++ (h ∷ [])) k ≡ (includes hs k || str_eq h k)
includes-append [] h k = ground arith
includes-append (x ∷ xs) h k = ground (arith, includes-append xs h k)

pub NoRepeats-append :
    (hs : List String) (h : String)
    → NoRepeats hs
    → includes hs h ≡ false
    → NoRepeats (hs ++ (h ∷ []))
NoRepeats-append [] h n e = (refl, tt)
NoRepeats-append (x ∷ xs) h (n, ns) e = (
  ground (arith, includes-append xs h x, eq_iff x h, eq_iff h x, e, n),
  NoRepeats-append xs h ns (ground (arith, e)),
)

map-append :
    (rs : List ConnectionRow) (r : ConnectionRow)
    → map hash_of (rs ++ (r ∷ [])) ≡ map hash_of rs ++ (r.credentials_hash ∷ [])
map-append [] r = refl
map-append (x ∷ xs) r = ap (λ l. x.credentials_hash ∷ l) (map-append xs r)

pub record IsKept (acc : Collected) : Type 0 where
  pub same : acc.seen_hashes ≡ map hash_of acc.unique_connections
  pub once : NoRepeats acc.seen_hashes

visit-IsKept : (r : ConnectionRow) (acc : Collected) → IsKept acc → IsKept (visit r acc)
visit-IsKept r acc k = elim (Bool-cases (str_eq r.credentials_hash "")) [
  | inl e ↦ rw e k
  | inr e ↦ elim (Bool-cases (includes acc.seen_hashes r.credentials_hash)) [
    | inl i ↦ rw (e, i) k
    | inr i ↦
        rw (e, i)
          (record {
            same =
                ap (λ l. l ++ (r.credentials_hash ∷ [])) k.same
                ∙ sym (map-append acc.unique_connections r);
            once = NoRepeats-append acc.seen_hashes r.credentials_hash k.once i;
          })
  ]
]

visit-accounted :
    (r q : ConnectionRow) (acc : Collected)
    → accounted acc.seen_hashes q ≡ true
    → accounted (visit r acc).seen_hashes q ≡ true
visit-accounted r q acc h =
    ground (arith, includes-append acc.seen_hashes r.credentials_hash q.credentials_hash, h)

visit-accounted_self :
    (r : ConnectionRow) (acc : Collected) → accounted (visit r acc).seen_hashes r ≡ true
visit-accounted_self r acc = ground (
  arith,
  includes-append acc.seen_hashes r.credentials_hash r.credentials_hash,
  eq_iff r.credentials_hash r.credentials_hash,
)

visit_all-IsKept :
    (rs : List ConnectionRow) (acc : Collected) → IsKept acc → IsKept (visit_all rs acc)
visit_all-IsKept [] acc k = k
visit_all-IsKept (r ∷ rs) acc k = visit_all-IsKept rs (visit r acc) (visit-IsKept r acc k)

visit_all-accounted :
    (rs : List ConnectionRow) (q : ConnectionRow) (acc : Collected)
    → accounted acc.seen_hashes q ≡ true
    → accounted (visit_all rs acc).seen_hashes q ≡ true
visit_all-accounted [] q acc h = h
visit_all-accounted (r ∷ rs) q acc h =
    visit_all-accounted rs q (visit r acc) (visit-accounted r q acc h)

All-accounted :
    (rs : List ConnectionRow) (acc : Collected)
    → All (λ q. accounted (visit_all rs acc).seen_hashes q ≡ true) rs
All-accounted [] acc = tt
All-accounted (r ∷ rs) acc = (
  visit_all-accounted rs r (visit r acc) (visit-accounted_self r acc),
  All-accounted rs (visit r acc),
)

-- A row of a list that has a hash.
abbrev pub IsHashed : List ConnectionRow → ConnectionRow → Type 0
IsHashed listed r = Memᴰ r listed × (str_eq r.credentials_hash "" ≡ false)

All-append :
    (P : ConnectionRow → Type 0) (xs : List ConnectionRow) (x : ConnectionRow)
    → All P xs
    → P x
    → All P (xs ++ (x ∷ []))
All-append P [] x h p = (p, tt)
All-append P (y ∷ ys) x (q, h) p = (q, All-append P ys x h p)

visit-All :
    (listed : List ConnectionRow) (r : ConnectionRow) (acc : Collected)
    → Memᴰ r listed
    → All (IsHashed listed) acc.unique_connections
    → All (IsHashed listed) (visit r acc).unique_connections
visit-All listed r acc m k = elim (Bool-cases (str_eq r.credentials_hash "")) [
  | inl e ↦ rw e k
  | inr e ↦ elim (Bool-cases (includes acc.seen_hashes r.credentials_hash)) [
    | inl i ↦ rw (e, i) k
    | inr i ↦ rw (e, i) (All-append (IsHashed listed) acc.unique_connections r k (m, e))
  ]
]

visit_all-All :
    (listed rs : List ConnectionRow) (acc : Collected)
    → ((r : ConnectionRow) → Memᴰ r rs → Memᴰ r listed)
    → All (IsHashed listed) acc.unique_connections
    → All (IsHashed listed) (visit_all rs acc).unique_connections
visit_all-All listed [] acc sub k = k
visit_all-All listed (r ∷ rs) acc sub k =
    visit_all-All listed rs (visit r acc) (λ q m. sub q (Memᴰ.tail m))
      (visit-All listed r acc (sub r (Memᴰ.head refl)) k)

module _ (table : Table ConnectionRow) where
  open table use {Db, rows}

  -- Where the database answers, the unique connections of a user are returned: each is an active
  -- connection of the user that has a hash, no two of them have one hash, and each active connection
  -- of the user has no hash or that of one of them.
  pub get_unique_credentials_for_user-NoRepeats :
      (user : String) (d : Db)
      → (us : List ConnectionRow) × ((get_unique_credentials_for_user table user (healthy d)).0
          ≡ ok us)
        × All (IsHashed (keep (is_of_user true user) (rows d))) us
        × NoRepeats (map hash_of us)
        × All (λ q. accounted (map hash_of us) q ≡ true) (keep (is_of_user true user) (rows d))
  unfolding get_unique_credentials_for_user
  get_unique_credentials_for_user-NoRepeats user d =
      let listed = keep (is_of_user true user) (rows d) in
      let k = visit_all-IsKept listed no_connections (record { same = refl; once = tt }) in
      (
        (visit_all listed no_connections).unique_connections,
        ap (λ l. ok (visit_all l no_connections).unique_connections)
            (table.find_many_lem (is_of_user true user) d),
        visit_all-All listed listed no_connections (λ r m. m) tt,
        subst NoRepeats k.same k.once,
        subst (λ hs. All (λ q. accounted hs q ≡ true) listed) k.same
            (All-accounted listed no_connections),
      )
