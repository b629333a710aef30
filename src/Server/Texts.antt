-- ===== src/Server/Texts.antt =====
-- What the schemas' tests on texts say: the units of an accepted text, and its length.
use zero_knowledge_aggregato.Base.{
  ℕ, zero, suc, ◌+◌, ◌≤◌, ◌≡◌, refl, ap, sym, ◌∙◌, ◌⊎◌, true, false, ◌&&◌, Option, none, some, List,
  [], ◌∷◌, ◌++◌, map, length-append, leb, length, Bool-cases, Option-cases, &&-true, inl, inr,
  arith, All,
}
use zero_knowledge_aggregato.Aggregator.Data.{Symbol, symbol}
use zero_knowledge_aggregato.Logger.Patterns.{to_lower, after}
use zero_knowledge_aggregato.Server.Schemas.{
  every, is_alphanumeric, is_hex, ends_in, take_hex, skip_dash, hex_groups, is_clerk_id, is_uuid,
  is_cuid, is_user_uid, of_length, user_uid_schema, exchange_schema, is_exchange_unit,
}

-- Letters, digits, the underscore and the dash.
abbrev pub IsSafe : ℕ → Type 0
IsSafe c =
    ((b'a' ≤ c) × (c ≤ b'z'))
    ⊎ (((b'A' ≤ c) × (c ≤ b'Z')) ⊎ (((b'0' ≤ c) × (c ≤ b'9')) ⊎ ((c ≡ b'_') ⊎ (c ≡ b'-'))))

every-append :
    (s r : Symbol)
    → every is_exchange_unit s ≡ true
    → every is_exchange_unit r ≡ true
    → every is_exchange_unit (s ++ r) ≡ true
every-append [] r h h' = h'
every-append (c ∷ s) r h h' =
    let (one, rest) = &&-true (is_exchange_unit c) (every is_exchange_unit s) h in
    rw (one, every-append s r rest h') refl

every-alphanumeric : (s : Symbol) → every is_alphanumeric s ≡ true → every is_exchange_unit s ≡ true
every-alphanumeric [] h = refl
every-alphanumeric (c ∷ s) h =
    let (one, rest) = &&-true (is_alphanumeric c) (every is_alphanumeric s) h in
    rw (one, every-alphanumeric s rest) refl

after-append : (p s r : Symbol) → after p s ≡ some r → s ≡ p ++ r
after-append [] s r e = cc
after-append (c ∷ p) [] r e = cc
after-append (c ∷ p) (d ∷ s) r e = ground (arith, after-append p s r, e)

-- The digits that `take_hex` passes.
take_hex-append :
    (n : ℕ) (s r : Symbol)
    → take_hex n s ≡ some r
    → (h : Symbol) × (s ≡ h ++ r) × (length h ≡ n) × (every is_exchange_unit h ≡ true)
take_hex-append zero s r e = ([], cc, refl, refl)
take_hex-append (suc n) [] r e = cc
take_hex-append (suc n) (c ∷ s) r e = elim (Bool-cases (is_hex c)) [
  | inl hex ↦
      let (h, split, size, safe) = take_hex-append n s r (sym (rw hex refl) ∙ e) in
      (c ∷ h, ap (λ t. c ∷ t) split, ap suc size, rw (hex_unit c hex, safe) refl)
  | inr not_hex ↦ let never : none ≡ some r = sym (rw not_hex refl) ∙ e in cc
]
  where
    hex_unit : (d : ℕ) → is_hex d ≡ true → is_exchange_unit d ≡ true
    hex_unit d h = ground (arith, h)

skip_dash-append : (o : Option Symbol) (r : Symbol) → skip_dash o ≡ some r → o ≡ some (b'-' ∷ r)
skip_dash-append none r e = cc
skip_dash-append (some []) r e = cc
skip_dash-append (some (c ∷ s)) r e = ground (arith, e)

-- The length of groups with dashes between them.
abbrev total : List ℕ → ℕ
total [] = 0
total (n ∷ []) = n
total (n ∷ m ∷ ns) = n + suc (total (m ∷ ns))

hex_groups-safe :
    (ns : List ℕ) (s : Symbol)
    → hex_groups ns s ≡ true
    → (every is_exchange_unit s ≡ true) × (length s ≡ total ns)
hex_groups-safe [] [] e = (refl, refl)
hex_groups-safe [] (c ∷ s) e = cc
hex_groups-safe (n ∷ []) s e = elim (Option-cases (take_hex n s)) [
  | inl absent ↦ let never : false ≡ true = sym (rw absent refl) ∙ e in cc
  | inr (r, taken) ↦
      let (h, split, size, safe) = take_hex-append n s r taken in
      let (safe_rest, ended) = hex_groups-safe [] r (sym (rw taken refl) ∙ e) in
      (
        rw split (every-append h r safe safe_rest),
        rw (split, length-append h r, size, ended) (omega arith),
      )
]
hex_groups-safe (n ∷ m ∷ ns) s e = elim (Option-cases (take_hex n s)) [
  | inl absent ↦ let never : false ≡ true = sym (rw absent refl) ∙ e in cc
  | inr (r, taken) ↦ elim (Option-cases (skip_dash (some r))) [
    | inl absent ↦ let never : false ≡ true = sym (rw (taken, absent) refl) ∙ e in cc
    | inr (t, skipped) ↦
        let (h, split, size, safe) = take_hex-append n s r taken in
        let dash : some r ≡ some (b'-' ∷ t) = skip_dash-append (some r) t skipped in
        let (safe_rest, ended) = hex_groups-safe (m ∷ ns) t (sym (rw (taken, skipped) refl) ∙ e) in
        let whole : s ≡ h ++ (b'-' ∷ t) = cc (split, dash) in
        (
          rw whole (every-append h (b'-' ∷ t) safe safe_rest),
          rw (whole, length-append h (b'-' ∷ t), size) (omega (arith, ended)),
        )
  ]
]

ends_in-safe :
    (low high : ℕ) (p s : Symbol)
    → every is_exchange_unit p ≡ true
    → ends_in low high (after p s) ≡ true
    → (every is_exchange_unit s ≡ true) × (length p + low ≤ length s) × (length s ≤ length p + high)
ends_in-safe low high p s safe e = elim (Option-cases (after p s)) [
  | inl absent ↦ let never : false ≡ true = sym (rw absent refl) ∙ e in cc
  | inr (r, found) ↦
      let here : ends_in low high (some r) ≡ true = sym (rw found refl) ∙ e in
      let (sized, letters) =
        &&-true (leb low (length r) && leb (length r) high) (every is_alphanumeric r) here in
      let split = after-append p s r found in
      let size : length s ≡ length p + length r = rw split (length-append p r) in
      (
        rw split (every-append p r safe (every-alphanumeric r letters)),
        ground (arith, sized, size),
        ground (arith, sized, size),
      )
]

-- The unit before it is put in lower case.
pub to_lower-IsSafe : (c : ℕ) → is_exchange_unit (to_lower c) ≡ true → IsSafe c
to_lower-IsSafe c h = ground (arith, h)

pub IsSafe-exchange : (c : ℕ) → is_exchange_unit c ≡ true → IsSafe c
IsSafe-exchange c h = ground (arith, h)

pub every-All :
    {P : ℕ → Type 0} (f : ℕ → ℕ)
    → ((c : ℕ) → is_exchange_unit (f c) ≡ true → P c)
    → (s : Symbol) → every is_exchange_unit (map f s) ≡ true
    → All P s
every-All f h [] e = tt
every-All f h (c ∷ s) e =
    let (one, rest) = &&-true (is_exchange_unit (f c)) (every is_exchange_unit (map f s)) e in
    (h c one, every-All f h s rest)

pub length-map : (f : ℕ → ℕ) (s : Symbol) → length (map f s) ≡ length s
length-map f [] = refl
length-map f (c ∷ s) = ap suc (length-map f s)

pub is_user_uid-safe :
    (s : Symbol)
    → is_user_uid s ≡ true
    → (every is_exchange_unit s ≡ true) × (15 ≤ length s) × (length s ≤ 55)
is_user_uid-safe s e = elim (Bool-cases (is_clerk_id s)) [
  | inl clerk ↦ ends_in-safe 10 50 (symbol "user_") s refl clerk
  | inr no_clerk ↦ elim (Bool-cases (is_uuid s)) [
    | inl uuid ↦
        let (safe, size) = hex_groups-safe (8 ∷ 4 ∷ 4 ∷ 4 ∷ 12 ∷ []) s uuid in
        (safe, omega (arith, size), omega (arith, size))
    | inr no_uuid ↦
        let cuid : is_cuid s ≡ true = sym (rw (no_clerk, no_uuid) refl) ∙ e in
        let (safe, low, high) = ends_in-safe 20 30 (symbol "c") s refl cuid in
        (safe, omega (arith, low), omega (arith, high))
  ]
]

-- A text of safe units, of a length within bounds.
abbrev pub IsSafeText : ℕ → ℕ → Symbol → Type 0
IsSafeText low high s = All IsSafe s × (low ≤ length s) × (length s ≤ high)

pub user_uid_schema-IsSafeText : (s : Symbol) → user_uid_schema s ≡ true → IsSafeText 15 55 s
unfolding user_uid_schema
user_uid_schema-IsSafeText s e =
    let (sized, shaped) = &&-true (of_length 1 100 s) (is_user_uid (map to_lower s)) e in
    let (safe, low, high) = is_user_uid-safe (map to_lower s) shaped in
    let size = length-map to_lower s in
    (every-All to_lower to_lower-IsSafe s safe, omega (arith, size, low), omega (arith, size, high))

map-id : (s : Symbol) → map (λ c. c) s ≡ s
map-id [] = refl
map-id (c ∷ s) = ap (λ t. c ∷ t) (map-id s)

pub exchange_schema-IsSafeText : (s : Symbol) → exchange_schema s ≡ true → IsSafeText 1 50 s
unfolding exchange_schema
exchange_schema-IsSafeText s e =
    let (sized, shaped) = &&-true (of_length 1 50 s) (every is_exchange_unit s) e in
    (
      every-All (λ c. c) IsSafe-exchange s (ap (every is_exchange_unit) (map-id s) ∙ shaped),
      ground (arith, sized),
      ground (arith, sized),
    )
