-- ===== src/MetricsService/Counting.antt =====
-- What a counter with labels shows.
use zero_knowledge_aggregato.Base.{
  ℕ, ◌+◌, ◌-◌, ◌*◌, ◌≡◌, refl, sym, ap, subst, ◌∙◌, inl, inr, String, Bool, true, false, ◌&&◌,
  Option, none, some, List, [], ◌∷◌, count_if, ltb, str_eq, eq_iff, if◌then◌else◌, Bool-cases,
  Option-cases, arith,
}
use zero_knowledge_aggregato.Aggregator.Data.{Numbers, Symbol, Object, lookup, set_key}
use zero_knowledge_aggregato.Aggregator.Symbols.{same_symbol, same_symbol_self, same_symbol_eq}
use zero_knowledge_aggregato.Aggregator.Breakdown.{or_nought}
use zero_knowledge_aggregato.MetricsService.{
  Metric, MetricType, MetricValue, counter, labelled, find_value, set_value, get_label_key,
  increment_counter, incremented, same_type, change, gauge, histogram, set_gauge, gauge_set,
  observe_histogram, observed,
}

-- Counts as natural numbers, which JavaScript's are below 2^53.
abbrev pub counts : Numbers
counts = record {
  Num = ℕ;
  nought = 0;
  plus = λ a b. a + b;
  minus = λ a b. a - b;
  times = λ a b. a * b;
  truthy = λ a. ltb 0 a;
  positive = λ a. ltb 0 a;
}

abbrev pub or_zero : Option ℕ → ℕ
or_zero none = 0
or_zero (some n) = n

find_value-set :
    (j k : Symbol) (n : ℕ) (vs : List (Symbol × ℕ))
    → find_value k (set_value j n vs) ≡ (if same_symbol j k then some n else find_value k vs)
find_value-set j k n [] = refl
find_value-set j k n ((i, m) ∷ vs) = elim (Bool-cases (same_symbol i j)) [
  | inl e ↦
      let same = same_symbol_eq i j e in
      elim (Bool-cases (same_symbol j k)) [
        | inl f ↦ rw (e, same, f) refl
        | inr f ↦ rw (e, same, f) refl
      ]
  | inr e ↦ elim (Bool-cases (same_symbol i k)) [
    | inl f ↦
        let other : same_symbol j k ≡ false = elim (Bool-cases (same_symbol j k)) [
          | inl g ↦
              let same : i ≡ j = same_symbol_eq i k f ∙ sym (same_symbol_eq j k g) in
              absurd (cc (ap (λ x. same_symbol x j) same, same_symbol_self j, e))
          | inr g ↦ g
        ] in
        rw (e, f, other) refl
    | inr f ↦ rw (e, f) (find_value-set j k n vs)
  ]
]

lookup-set_key :
    {A : Type 0} (j k : String) (a : A) (ms : Object A)
    → lookup k (set_key j a ms) ≡ (if str_eq j k then some a else lookup k ms)
lookup-set_key j k a [] = refl
lookup-set_key j k a ((i, b) ∷ ms) = elim (Bool-cases (str_eq i j)) [
  | inl e ↦
      let same = (eq_iff i j).0 e in
      elim (Bool-cases (str_eq j k)) [ inl f ↦ rw (e, same, f) refl | inr f ↦ rw (e, same, f) refl ]
  | inr e ↦ elim (Bool-cases (str_eq i k)) [
    | inl f ↦
        let other : str_eq j k ≡ false = elim (Bool-cases (str_eq j k)) [
          | inl g ↦
              let same : i ≡ j = (eq_iff i k).0 f ∙ sym ((eq_iff j k).0 g) in
              absurd (cc ((eq_iff i j).1 same, e))
          | inr g ↦ g
        ] in
        rw (e, f, other) refl
    | inr f ↦ rw (e, f) (lookup-set_key j k a ms)
  ]
]

some-injective : {A : Type 0} {a b : A} → some a ≡ some b → a ≡ b
some-injective e = cc

module _ (precedes : String → String → Bool) where
  abbrev pub Counters : Type 0
  Counters = Object (Metric ℕ)

  -- One call of `incrementCounter`: a name, and labels or none.
  abbrev pub Event : Type 0
  Event = String × Option (Object String)

  abbrev pub increment : Event → Counters → Counters
  increment (name, ls) = increment_counter counts 1 precedes name ls

  abbrev pub increment_all : List Event → Counters → Counters
  increment_all [] ms = ms
  increment_all (e ∷ es) ms = increment_all es (increment e ms)

  abbrev pub has_labels : Symbol → Option (Object String) → Bool
  has_labels k none = false
  has_labels k (some ls) = same_symbol (get_label_key precedes ls) k

  abbrev pub is_for : String → Symbol → Event → Bool
  is_for name k (other, ls) = str_eq other name && has_labels k ls

  -- The registry has a counter with labels that shows a number under a text of labels.
  pub record Shows (name : String) (k : Symbol) (ms : Counters) (n : ℕ) : Type 0 where
    pub metric : Metric ℕ
    pub values : List (Symbol × ℕ)
    pub there : lookup name ms ≡ some metric
    pub typed : metric.type_of ≡ counter
    pub valued : metric.value ≡ labelled values
    pub shown : or_zero (find_value k values) ≡ n

  or_nought-or_zero : (o : Option ℕ) → or_nought counts o ≡ or_zero o
  or_nought-or_zero none = refl
  or_nought-or_zero (some n) = ground arith

  abbrev value_after : Option (Object String) → Metric ℕ → Metric ℕ
  value_after ls m = record m { value = incremented counts 1 precedes ls m.value }

  lookup-increment :
      (name : String) (ls : Option (Object String)) (ms : Counters) (m : Metric ℕ)
      → lookup name ms ≡ some m
      → same_type m.type_of counter ≡ true
      → lookup name (increment (name, ls) ms) ≡ some (value_after ls m)
  unfolding increment_counter
  lookup-increment name ls ms m e t =
      rw (e, t, lookup-set_key name name (value_after ls m) ms, (eq_iff name name).1 refl) refl

  lookup-increment_other :
      (name other : String) (ls : Option (Object String)) (ms : Counters)
      → str_eq other name ≡ false
      → lookup name (increment (other, ls) ms) ≡ lookup name ms
  unfolding increment_counter
  lookup-increment_other name other ls ms e = elim (Option-cases (lookup other ms)) [
    | inl f ↦ rw f refl
    | inr (m, f) ↦ elim (Bool-cases (same_type m.type_of counter)) [
      | inl t ↦ rw (f, t, lookup-set_key other name (value_after ls m) ms, e) refl
      | inr t ↦ rw (f, t) refl
    ]
  ]

  -- The values after one call with these labels, or with none.
  abbrev values_after : Option (Object String) → List (Symbol × ℕ) → List (Symbol × ℕ)
  values_after none vs = vs
  values_after (some ls) vs =
      let j = get_label_key precedes ls in set_value j (or_nought counts (find_value j vs) + 1) vs

  incremented-values :
      (ls : Option (Object String)) (vs : List (Symbol × ℕ))
      → incremented counts 1 precedes ls (labelled vs) ≡ labelled (values_after ls vs)
  incremented-values none vs = refl
  incremented-values (some ls) vs = refl

  values_after-shows :
      (k : Symbol) (ls : Option (Object String)) (vs : List (Symbol × ℕ))
      → or_zero (find_value k (values_after ls vs))
        ≡ or_zero (find_value k vs) + (if has_labels k ls then 1 else 0)
  values_after-shows k none vs = omega arith
  values_after-shows k (some ls) vs =
      let j = get_label_key precedes ls in
      let set = find_value-set j k (or_nought counts (find_value j vs) + 1) vs in
      elim (Bool-cases (same_symbol j k)) [
        | inl e ↦
            rw (set, e)
              (ap (λ n. n + 1)
                (or_nought-or_zero (find_value j vs)
                  ∙ ap (λ i. or_zero (find_value i vs)) (same_symbol_eq j k e)))
        | inr e ↦ rw (set, e) (omega arith)
      ]

  increment-Shows :
      (name : String) (k : Symbol) (e : Event) (ms : Counters) (n : ℕ)
      → Shows name k ms n
      → Shows name k (increment e ms) (n + (if is_for name k e then 1 else 0))
  increment-Shows name k (other, ls) ms n h = elim (Bool-cases (str_eq other name)) [
    | inl e ↦
        let same : other ≡ name = (eq_iff other name).0 e in
        rw (e, same)
          (record {
            metric = value_after ls h.metric;
            values = values_after ls h.values;
            there = lookup-increment name ls ms h.metric h.there (rw (h.typed) refl);
            typed = h.typed;
            valued =
                ap (incremented counts 1 precedes ls) h.valued ∙ incremented-values ls h.values;
            shown =
                values_after-shows k ls h.values
                ∙ ap (λ x. x + (if has_labels k ls then 1 else 0)) h.shown;
          })
    | inr e ↦ rw e (record {
      metric = h.metric;
      values = h.values;
      there = lookup-increment_other name other ls ms e ∙ h.there;
      typed = h.typed;
      valued = h.valued;
      shown = omega (arith, h.shown);
    })
  ]

  -- Setting a metric of another type leaves a counter.
  lookup-change :
      (t : MetricType) (f : MetricValue ℕ → MetricValue ℕ) (name other : String) (ms : Counters)
      (m : Metric ℕ)
      → lookup name ms ≡ some m
      → m.type_of ≡ counter
      → same_type counter t ≡ false
      → lookup name (change counts 1 precedes t f other ms) ≡ some m
  lookup-change t f name other ms m e typed differs = elim (Option-cases (lookup other ms)) [
    | inl a ↦ rw a e
    | inr (m2, a) ↦ elim (Bool-cases (same_type m2.type_of t)) [
      | inr b ↦ rw (a, b) e
      | inl b ↦ elim (Bool-cases (str_eq other name)) [
        | inl c ↦
            let one : some m2 ≡ some m =
              sym a ∙ ap (λ x. lookup x ms) ((eq_iff other name).0 c) ∙ e in
            let same : m2 ≡ m = some-injective one in
            let clash : same_type counter t ≡ true =
              ap (λ x. same_type x t) (sym (ap (λ (x : Metric ℕ). x.type_of) same ∙ typed)) ∙ b in
            absurd (cc (clash, differs))
        | inr c ↦ rw (a, b, lookup-set_key other name (record m2 { value = f m2.value }) ms, c) e
      ]
    ]
  ]

  change-Shows :
      (t : MetricType) (f : MetricValue ℕ → MetricValue ℕ) (name other : String) (k : Symbol)
      (ms : Counters) (n : ℕ)
      → same_type counter t ≡ false
      → Shows name k ms n
      → Shows name k (change counts 1 precedes t f other ms) n
  change-Shows t f name other k ms n differs h = record {
    metric = h.metric;
    values = h.values;
    there = lookup-change t f name other ms h.metric h.there h.typed differs;
    typed = h.typed;
    valued = h.valued;
    shown = h.shown;
  }

  -- The calls of the service that change a value.
  pub data Call : Type 0 where
    increment_call : Event → Call
    gauge_call : String → ℕ → Option (Object String) → Call
    histogram_call : String → ℕ → Option (Object String) → Call

  abbrev pub call : Call → Counters → Counters
  call (increment_call e) ms = increment e ms
  call (gauge_call name n ls) ms = set_gauge counts 1 precedes name n ls ms
  call (histogram_call name n ls) ms = observe_histogram counts 1 precedes name n ls ms

  abbrev pub call_all : List Call → Counters → Counters
  call_all [] ms = ms
  call_all (c ∷ cs) ms = call_all cs (call c ms)

  abbrev pub is_increment : String → Symbol → Call → Bool
  is_increment name k (increment_call e) = is_for name k e
  is_increment name k (gauge_call other n ls) = false
  is_increment name k (histogram_call other n ls) = false

  call-Shows :
      (name : String) (k : Symbol) (c : Call) (ms : Counters) (n : ℕ)
      → Shows name k ms n
      → Shows name k (call c ms) (n + (if is_increment name k c then 1 else 0))
  unfolding set_gauge observe_histogram
  call-Shows name k (increment_call e) ms n h = increment-Shows name k e ms n h
  call-Shows name k (gauge_call other m ls) ms n h =
      subst (Shows name k (call (gauge_call other m ls) ms)) (omega arith)
        (change-Shows gauge (gauge_set counts 1 precedes m ls) name other k ms n refl h)
  call-Shows name k (histogram_call other m ls) ms n h =
      subst (Shows name k (call (histogram_call other m ls) ms)) (omega arith)
        (change-Shows histogram (observed counts 1 precedes m ls) name other k ms n refl h)

  -- After any calls of the service a counter with labels shows, under each text of labels, what it
  -- showed before and one for each increment of that counter with those labels; the other calls and
  -- other labels add nothing.
  pub call_all-Shows :
      (name : String) (k : Symbol) (cs : List Call) (ms : Counters) (n : ℕ)
      → Shows name k ms n
      → Shows name k (call_all cs ms) (n + count_if (is_increment name k) cs)
  call_all-Shows name k [] ms n h = subst (Shows name k ms) (omega arith) h
  call_all-Shows name k (c ∷ cs) ms n h =
      subst (Shows name k (call_all (c ∷ cs) ms)) (omega arith)
        (call_all-Shows name k cs (call c ms) _ (call-Shows name k c ms n h))
