-- ===== src/Logger/Buffer.antt =====
-- The ring buffer of the logger beside an unbounded list of all lines since it was last cleared.
use zero_knowledge_aggregato.Base.{
  ℕ, zero, suc, ◌-◌, ◌≤◌, ◌≡◌, refl, ap, sym, ◌∙◌, String, List, [], ◌∷◌, ◌++◌, length,
  length-append, drop, ltb, leb, if◌then◌else◌, Bool-cases, inl, inr, arith,
}
use zero_knowledge_aggregato.Logger.Metadata.{Fields}
use zero_knowledge_aggregato.Logger.{
  LogLevel, error_level, warn_level, info_level, debug_level, LogEntry, LogState, Thrown,
  log_level_priority, push_log, write_line, add_log_to_buffer, get_log_buffer, clear_log_buffer,
  register_sse_broadcast, set_log_level, max_log_buffer_size, entry_of, enriched, emit, error,
}

module _ {A : Type 0} where
  drop-append_in : (k : ℕ) (xs ys : List A) → k ≤ length xs → drop k (xs ++ ys) ≡ drop k xs ++ ys
  drop-append_in zero xs ys h = refl
  drop-append_in (suc k) [] ys h = absurd (omega (arith, h))
  drop-append_in (suc k) (x ∷ xs) ys h = drop-append_in k xs ys (omega (arith, h))

  length-drop : (k : ℕ) (xs : List A) → length (drop k xs) ≡ length xs - k
  length-drop zero xs = omega arith
  length-drop (suc k) [] = omega arith
  length-drop (suc k) (x ∷ xs) = omega (arith, length-drop k xs)

  drop-drop : (k : ℕ) (xs : List A) → drop 1 (drop k xs) ≡ drop (suc k) xs
  drop-drop zero xs = refl
  drop-drop (suc k) [] = refl
  drop-drop (suc k) (x ∷ xs) = drop-drop k xs

  -- The last entries of a list, at most `n`.
  abbrev pub last_up_to : ℕ → List A → List A
  last_up_to n xs = drop (length xs - n) xs

  pub length-last_up_to : (n : ℕ) (xs : List A) → length (last_up_to n xs) ≤ n
  length-last_up_to n xs = omega (arith, length-drop (length xs - n) xs)

push_log-last_up_to :
    (line : String) (lines : List String)
    → push_log line (last_up_to max_log_buffer_size lines)
      ≡ last_up_to max_log_buffer_size (lines ++ (line ∷ []))
push_log-last_up_to line lines =
    let k = length lines - 500 in
    let joined = drop-append_in k lines (line ∷ []) (omega arith) in
    let one_more = length-append lines (line ∷ []) in
    let size = length-drop k (lines ++ (line ∷ [])) in
    rw (← joined) (elim (Bool-cases (ltb 500 (length (drop k (lines ++ (line ∷ [])))))) [
      | inl e ↦ rw e (
          drop-drop k (lines ++ (line ∷ []))
          ∙ ap (λ j. drop j (lines ++ (line ∷ []))) {x = suc k} (ground (arith, one_more, size, e)))
      | inr e ↦
          rw e (ap (λ j. drop j (lines ++ (line ∷ []))) {x = k} (ground (arith, one_more, size, e)))
    ])

-- One use of the logger.
pub data LogCall : Type 0 where
  logged : ℕ → String → LogLevel → String → Fields → LogCall
  failed : ℕ → String → String → Thrown → Fields → LogCall
  cleared broadcasting : LogCall
  leveled : LogLevel → LogCall

-- What a reader of the buffer is promised, without a bound: the lines since the last clearing.
pub record Lines : Type 0 where
  pub level : LogLevel
  pub lines : List String

abbrev pub add_line : LogLevel → String → Lines → Lines
add_line level line l =
    if leb (log_level_priority level) (log_level_priority l.level)
    then record l { lines = l.lines ++ (line ∷ []) }
    else l

module _ (stringify : LogEntry → String) where
  abbrev pub step : LogCall → LogState → LogState
  step (logged now context level message m) s = emit stringify now context level message m s
  step (failed now context message thrown m) s = error stringify now context message thrown m s
  step cleared s = clear_log_buffer s
  step broadcasting s = register_sse_broadcast s
  step (leveled level) s = set_log_level level s

  abbrev pub run : List LogCall → LogState → LogState
  run [] s = s
  run (c ∷ cs) s = run cs (step c s)

  abbrev pub step_lines : LogCall → Lines → Lines
  step_lines (logged now context level message m) l =
      add_line level (stringify (entry_of now context level message m)) l
  step_lines (failed now context message thrown m) l =
      add_line error_level
        (stringify (entry_of now context error_level message (enriched thrown m))) l
  step_lines cleared l = record l { lines = [] }
  step_lines broadcasting l = l
  step_lines (leveled level) l = record l { level = level }

  abbrev pub run_lines : List LogCall → Lines → Lines
  run_lines [] l = l
  run_lines (c ∷ cs) l = run_lines cs (step_lines c l)

  pub record Refines (s : LogState) (l : Lines) : Type 0 where
    pub same_level : s.global_level ≡ l.level
    pub last_lines : get_log_buffer s ≡ last_up_to max_log_buffer_size l.lines

  write_line_level :
      (level : LogLevel) (line : String) (s : LogState)
      → ((write_line level line s).global_level ≡ s.global_level)
        × ((write_line level line s).log_buffer ≡ s.log_buffer)
  write_line_level error_level line s = (refl, refl)
  write_line_level warn_level line s = (refl, refl)
  write_line_level info_level line s = (refl, refl)
  write_line_level debug_level line s = (refl, refl)

  emit-Refines :
      (now : ℕ) (context : String) (level : LogLevel) (message : String) (m : Fields) (s : LogState)
      (l : Lines)
      → Refines s l
      → Refines
          (emit stringify now context level message m s)
          (add_line level (stringify (entry_of now context level message m)) l)
  unfolding emit add_log_to_buffer get_log_buffer
  emit-Refines now context level message m s l r =
      let line = stringify (entry_of now context level message m) in
      let same =
        ap (λ g. leb (log_level_priority level) (log_level_priority g)) (sym r.same_level) in
      elim (Bool-cases (leb (log_level_priority level) (log_level_priority s.global_level))) [
        | inl e ↦
            rw (e, same ∙ e)
              (record {
                same_level = (write_line_level level line s).0 ∙ r.same_level;
                last_lines =
                    ap (push_log line) ((write_line_level level line s).1 ∙ r.last_lines)
                    ∙ push_log-last_up_to line l.lines;
              })
        | inr e ↦ rw (e, same ∙ e) r
      ]

  step-Refines :
      (c : LogCall) (s : LogState) (l : Lines) → Refines s l → Refines (step c s) (step_lines c l)
  unfolding error clear_log_buffer register_sse_broadcast set_log_level get_log_buffer
  step-Refines (logged now context level message m) s l r =
      emit-Refines now context level message m s l r
  step-Refines (failed now context message thrown m) s l r =
      emit-Refines now context error_level message (enriched thrown m) s l r
  step-Refines cleared s l r = record { same_level = r.same_level; last_lines = refl }
  step-Refines broadcasting s l r = record { same_level = r.same_level; last_lines = r.last_lines }
  step-Refines (leveled level) s l r = record { same_level = refl; last_lines = r.last_lines }

  -- The buffer refines an unbounded log: after any uses, at any levels, it holds the last 500 of the
  -- lines that were let through since it was last cleared, in their order, if it did so before.
  pub run-Refines :
      (cs : List LogCall) (s : LogState) (l : Lines)
      → s.global_level ≡ l.level
      → get_log_buffer s ≡ last_up_to max_log_buffer_size l.lines
      → (get_log_buffer (run cs s) ≡ last_up_to max_log_buffer_size (run_lines cs l).lines)
        × (length (get_log_buffer (run cs s)) ≤ max_log_buffer_size)
  run-Refines cs s l e h =
      let r = run_kept cs s l (record { same_level = e; last_lines = h }) in
      (r.last_lines, rw r.last_lines (length-last_up_to max_log_buffer_size (run_lines cs l).lines))
    where
      run_kept :
          (cs : List LogCall) (s : LogState) (l : Lines)
          → Refines s l
          → Refines (run cs s) (run_lines cs l)
      run_kept [] s l r = r
      run_kept (c ∷ cs) s l r = run_kept cs (step c s) (step_lines c l) (step-Refines c s l r)
