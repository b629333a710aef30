-- ===== src/Logger/Redaction.antt =====
-- What the lines of the logger do not depend on, and what they never hold.
use zero_knowledge_aggregato.Base.{ℕ, ◌≡◌, refl, ap, String, Bool, true, some, Bool-cases, inl, inr}
use zero_knowledge_aggregato.Aggregator.Data.{Symbol, symbol}
use zero_knowledge_aggregato.Aggregator.Symbols.{same_symbol}
use zero_knowledge_aggregato.Logger.Metadata.{
  Value, Items, Fields, arr, obj, nil, item, end, field, redacted, set_field, filter_sensitive_data,
  filter_items, filter_fields, is_truthy,
}
use zero_knowledge_aggregato.Logger.Patterns.{should_redact_field}
use zero_knowledge_aggregato.Logger.{
  LogEntry, LogState, LogLevel, Thrown, nothing, an_error, other, filtered_metadata, emit, error,
  enriched,
}

module _ (sensitive : Symbol → Bool) where
  -- Two values that differ at most in what stands under sensitive names.
  mutual
    pub data Alike : Value → Value → Type 0 where
      same : (v : Value) → Alike v v
      arrays : (xs ys : Items) → AlikeItems xs ys → Alike (arr xs) (arr ys)
      objects : (fs gs : Fields) → AlikeFields fs gs → Alike (obj fs) (obj gs)

    pub data AlikeItems : Items → Items → Type 0 where
      no_items : AlikeItems nil nil
      items :
          (v w : Value) (xs ys : Items)
          → Alike v w
          → AlikeItems xs ys
          → AlikeItems (item v xs) (item w ys)

    pub data AlikeFields : Fields → Fields → Type 0 where
      no_fields : AlikeFields end end
      hidden :
          (k : Symbol) (v w : Value) (fs gs : Fields)
          → sensitive k ≡ true
          → AlikeFields fs gs
          → AlikeFields (field k v fs) (field k w gs)
      shown :
          (k : Symbol) (v w : Value) (fs gs : Fields)
          → Alike v w
          → AlikeFields fs gs
          → AlikeFields (field k v fs) (field k w gs)

  mutual
    unfolding filter_sensitive_data

    filter-Alike :
        (v w : Value)
        → Alike v w
        → filter_sensitive_data sensitive v ≡ filter_sensitive_data sensitive w
    filter-Alike v _ (same _) = refl
    filter-Alike _ _ (arrays xs ys a) = ap arr (filter_items-Alike xs ys a)
    filter-Alike _ _ (objects fs gs a) = ap obj (filter_fields-Alike fs gs a)

    filter_items-Alike :
        (xs ys : Items) → AlikeItems xs ys → filter_items sensitive xs ≡ filter_items sensitive ys
    filter_items-Alike _ _ no_items = refl
    filter_items-Alike _ _ (items v w xs ys a rest) =
        cc (filter-Alike v w a, filter_items-Alike xs ys rest)

    filter_fields-Alike :
        (fs gs : Fields)
        → AlikeFields fs gs
        → filter_fields sensitive fs ≡ filter_fields sensitive gs
    filter_fields-Alike _ _ no_fields = refl
    filter_fields-Alike _ _ (hidden k v w fs gs h rest) =
        rw h (ap (field k redacted) (filter_fields-Alike fs gs rest))
    filter_fields-Alike _ _ (shown k v w fs gs a rest) =
        cc (filter-Alike v w a, filter_fields-Alike fs gs rest)

  set_field-Alike :
      (k : Symbol) (v w : Value) (fs gs : Fields)
      → Alike v w
      → AlikeFields fs gs
      → AlikeFields (set_field k v fs) (set_field k w gs)
  set_field-Alike k v w _ _ a no_fields = shown k v w end end a no_fields
  set_field-Alike k v w _ _ a (hidden j x y fs gs h rest) = elim (Bool-cases (same_symbol j k)) [
    | inl e ↦ rw e (shown j v w fs gs a rest)
    | inr e ↦ rw e (hidden j x y _ _ h (set_field-Alike k v w fs gs a rest))
  ]
  set_field-Alike k v w _ _ a (shown j x y fs gs b rest) = elim (Bool-cases (same_symbol j k)) [
    | inl e ↦ rw e (shown j v w fs gs a rest)
    | inr e ↦ rw e (shown j x y _ _ b (set_field-Alike k v w fs gs a rest))
  ]

-- Two thrown things that differ at most in the name of an Error, or in what an object holds.
pub data AlikeThrown : Thrown → Thrown → Type 0 where
  nothing_thrown : AlikeThrown nothing nothing
  renamed : (n n' m s : Value) → AlikeThrown (an_error n m s) (an_error n' m s)
  same_other : (v : Value) → AlikeThrown (other v) (other v)
  other_objects : (fs gs : Fields) → AlikeThrown (other (obj fs)) (other (obj gs))

filtered_metadata-Alike :
    (fs gs : Fields)
    → AlikeFields should_redact_field fs gs
    → filtered_metadata fs ≡ filtered_metadata gs
filtered_metadata-Alike _ _ no_fields = refl
filtered_metadata-Alike _ _ (hidden k v w fs gs h rest) =
    ap some (filter_fields-Alike should_redact_field _ _ (hidden k v w fs gs h rest))
filtered_metadata-Alike _ _ (shown k v w fs gs a rest) =
    ap some (filter_fields-Alike should_redact_field _ _ (shown k v w fs gs a rest))

name_hidden : should_redact_field (symbol "name") ≡ true
unfolding should_redact_field
name_hidden = refl

enriched-Alike :
    (t t' : Thrown) (fs gs : Fields)
    → AlikeThrown t t'
    → AlikeFields should_redact_field fs gs
    → AlikeFields should_redact_field (enriched t fs) (enriched t' gs)
enriched-Alike _ _ fs gs nothing_thrown h = h
enriched-Alike _ _ fs gs (same_other v) h = elim (Bool-cases (is_truthy v)) [
  | inl e ↦ rw e (set_field-Alike should_redact_field _ _ _ fs gs (same _) h)
  | inr e ↦ rw e h
]
enriched-Alike _ _ fs gs (other_objects xs ys) h =
    set_field-Alike should_redact_field _ _ _ fs gs (same _) h
enriched-Alike _ _ fs gs (renamed n n' m s) h =
    set_field-Alike should_redact_field _ _ _ fs gs
      (objects _ _ (
        hidden _ n n' _ _ name_hidden
          (shown _ m m _ _ (same m) (shown _ s s _ _ (same s) no_fields))))
      h

module _ (stringify : LogEntry → String) where
  -- Metadata that differ only in values under sensitive names, at any depth, leave the same state of
  -- the logger at every level: the same lines on both streams, in the buffer and in the broadcast.
  -- So do, besides, errors that differ only in their name, and thrown objects that are no errors,
  -- whatever they hold.
  pub emit-AlikeFields :
      (now : ℕ) (context : String) (level : LogLevel) (message : String) (m m' : Fields)
      (t t' : Thrown) (s : LogState)
      → AlikeFields should_redact_field m m'
      → AlikeThrown t t'
      → (emit stringify now context level message m s
          ≡ emit stringify now context level message m' s)
        × (error stringify now context message t m s ≡ error stringify now context message t' m' s)
  unfolding emit error
  emit-AlikeFields now context level message m m' t t' s h k = (
    rw (filtered_metadata-Alike m m' h),
    rw (filtered_metadata-Alike _ _ (enriched-Alike t t' m m' k h)),
  )
