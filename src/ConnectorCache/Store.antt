-- ===== src/ConnectorCache/Store.antt =====
-- What writing, deleting and searching for the oldest access do to the entries.
use mathlib.Core.List.{Memᴰ}
use zero_knowledge_aggregato.Base.{
  ℕ, ◌+◌, ◌≤◌, ◌≡◌, ◌≢◌, refl, ◌⊎◌, inl, inr, String, Bool, not, Option, none, some, List, [], ◌∷◌,
  ◌++◌, length, find, find-true, ltb, str_eq, eq_iff, All, Bool-cases, arith,
}
use zero_knowledge_aggregato.Prisma.{upsert_rows}
use zero_knowledge_aggregato.Prisma.Keyed.{
  IsUnique, find-upsert_self, find-keep, upsert-IsUnique, upserted,
}
use zero_knowledge_aggregato.ConnectorCache.{
  Entry, has_key, set_entry, delete_entry, older, oldest_from,
}

abbrev pub key_of : Entry → String
key_of e = e.key

abbrev pub EntriesUnique : List Entry → Type 0
EntriesUnique = IsUnique key_of str_eq eq_iff

pub length-upsert :
    (p : Entry → Bool) (f : Entry → Entry) (new : Entry) (es : List Entry)
    → length (upsert_rows p f new es) ≤ length es + 1
length-upsert p f new [] = omega arith
length-upsert p f new (e ∷ es) = ground (arith, length-upsert p f new es)

pub length-set_entry : (new : Entry) (es : List Entry) → length (set_entry new es) ≤ length es + 1
length-set_entry new es = length-upsert (has_key new.key) (λ e. record new { key = e.key }) new es

-- Writing a key that is there keeps the number of entries.
pub length-upsert_found :
    (p : Entry → Bool) (f : Entry → Entry) (new e : Entry) (es : List Entry)
    → find p es ≡ some e
    → length (upsert_rows p f new es) ≡ length es
length-upsert_found p f new e [] h = cc
length-upsert_found p f new e (x ∷ es) h = ground (arith, length-upsert_found p f new e es)

-- Writing a new key appends it.
pub upsert-append :
    (p : Entry → Bool) (f : Entry → Entry) (new : Entry) (es : List Entry)
    → find p es ≡ none
    → upsert_rows p f new es ≡ es ++ new ∷ []
upsert-append p f new [] h = refl
upsert-append p f new (x ∷ es) h = ground (arith, upsert-append p f new es)

keep_all : (k : String) (es : List Entry) → find (has_key k) es ≡ none → delete_entry k es ≡ es
keep_all k [] h = refl
keep_all k (e ∷ es) h = ground (arith, keep_all k es)

-- Deleting a key that is there removes one entry.
pub length-delete :
    (k : String) (es : List Entry)
    → EntriesUnique es
    → find (has_key k) es ≢ none
    → length (delete_entry k es) + 1 ≡ length es
length-delete k [] u h = absurd (h refl)
length-delete k (e ∷ es) (u, us) h = elim (Bool-cases (has_key k e)) [
  | inl own ↦
      let same : e.key ≡ k = (eq_iff _ _).0 own in
      rw own (rw (keep_all k es (rw same at u)) (omega arith))
  | inr other ↦ rw other (omega (arith, length-delete k es us (rw other at h)))
]

pub set_entry_unique :
    (new : Entry) (es : List Entry) → EntriesUnique es → EntriesUnique (set_entry new es)
set_entry_unique new es u =
    upsert-IsUnique key_of str_eq eq_iff new.key (λ e. record new { key = e.key }) new es
      (λ e. refl) refl u

same_key :
    (new : Entry) (o : Option Entry)
    → ((r : Entry) → o ≡ some r → r.key ≡ new.key)
    → upserted (λ e. record new { key = e.key }) new o ≡ new
same_key new none h = refl
same_key new (some r) h = let e = h r refl in rw e

-- The key that was written is found with what was written.
pub find-set_entry :
    (new : Entry) (es : List Entry) → find (has_key new.key) (set_entry new es) ≡ some new
find-set_entry new es = rw (
  find-upsert_self key_of str_eq eq_iff new.key (λ e. record new { key = e.key }) new es (λ e. refl)
      refl,
  same_key new (find (has_key new.key) es)
      (λ r found. (eq_iff _ _).0 (find-true (has_key new.key) es found)),
)

pub find-delete_other :
    (k j : String) (es : List Entry)
    → EntriesUnique es
    → (e : Entry) → find (has_key k) es ≡ some e
    → k ≢ j
    → find (has_key k) (delete_entry j es) ≡ some e
find-delete_other k j es u e found ne =
    rw (find-keep key_of str_eq eq_iff k (λ x. not (has_key j x)) es u, found)
      (elim (Bool-cases (has_key j e)) [
        | inl h ↦
            absurd (ne (cc ((eq_iff _ _).0 h, (eq_iff _ _).0 (find-true (has_key k) es found))))
        | inr h ↦ rw h
      ])

older-cases :
    (e : Entry) (best : Option (String × ℕ))
    → (older e best ≡ best) ⊎ (older e best ≡ some (e.key, e.last_accessed))
older-cases e none = inr refl
older-cases e (some (k, t)) = elim (Bool-cases (ltb e.last_accessed t)) [
  | inl h ↦ inr (rw h)
  | inr h ↦ inl (rw h)
]

-- The result of the search for the oldest access is the start value or an entry.
pub oldest_from-mem :
    (best : Option (String × ℕ)) (es : List Entry) (k : String) (t : ℕ)
    → oldest_from best es ≡ some (k, t)
    → (best ≡ some (k, t)) ⊎ ((e : Entry) × Memᴰ e es × (e.key ≡ k) × (e.last_accessed ≡ t))
oldest_from-mem best [] k t h = inl h
oldest_from-mem best (e ∷ es) k t h = elim (oldest_from-mem (older e best) es k t h) [
  | inl old ↦ elim (older-cases e best) [
    | inl same ↦ inl (cc (same, old))
    | inr same ↦ inr (e, Memᴰ.head refl, cc (same, old), cc (same, old))
  ]
  | inr (x, m, key, time) ↦ inr (x, Memᴰ.tail m, key, time)
]

abbrev AtMost : ℕ → Option (String × ℕ) → Type 0
AtMost t none = Unit {0}
AtMost t (some b) = t ≤ b.1

older-AtMost :
    (t : ℕ) (e : Entry) (best : Option (String × ℕ))
    → AtMost t (older e best)
    → (t ≤ e.last_accessed) × AtMost t best
older-AtMost t e none h = (h, tt)
older-AtMost t e (some b) h = ground arith

-- No entry was accessed before the one that is found.
pub oldest_from-le :
    (best : Option (String × ℕ)) (es : List Entry) (k : String) (t : ℕ)
    → oldest_from best es ≡ some (k, t)
    → AtMost t best × All (λ e. t ≤ e.last_accessed) es
oldest_from-le best [] k t h = (rw h (omega arith), tt)
oldest_from-le best (e ∷ es) k t h =
    let (first, rest) = oldest_from-le (older e best) es k t h in
    let (here, before) = older-AtMost t e best first in (before, (here, rest))

oldest_from-some :
    (b : String × ℕ) (es : List Entry) → (r : String × ℕ) × (oldest_from (some b) es ≡ some r)
oldest_from-some b [] = (b, refl)
oldest_from-some b (e ∷ es) = elim (older-cases e (some b)) [
  | inl same ↦ let (r, h) = oldest_from-some b es in (r, rw same h)
  | inr same ↦ let (r, h) = oldest_from-some (e.key, e.last_accessed) es in (r, rw same h)
]

-- The search finds something in every list with an entry.
pub oldest_from-total :
    (e : Entry) (es : List Entry) → (r : String × ℕ) × (oldest_from none (e ∷ es) ≡ some r)
oldest_from-total e es = oldest_from-some (e.key, e.last_accessed) es

pub find-ne-none_of_mem :
    {e : Entry} (es : List Entry) (k : String) → Memᴰ e es → e.key ≡ k → find (has_key k) es ≢ none
find-ne-none_of_mem [] k m h e = elim m [ ]
find-ne-none_of_mem (x ∷ es) k (Memᴰ.head same) h e =
    ground (arith, (eq_iff x.key k).1 (cc (same, h)))
find-ne-none_of_mem (x ∷ es) k (Memᴰ.tail m) h e = find-ne-none_of_mem es k m h (ground arith)

-- The search over a list with one more entry at its end.
pub oldest_from-append :
    (best : Option (String × ℕ)) (es : List Entry) (new : Entry)
    → oldest_from best (es ++ new ∷ []) ≡ older new (oldest_from best es)
oldest_from-append best [] new = refl
oldest_from-append best (e ∷ es) new = oldest_from-append (older e best) es new
