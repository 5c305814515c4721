-- ===== src/Resilience/Health/Worst.antt =====
-- The overall status against the indicators.
use ts_commons.Base.{
  ℕ, String, ◌≡◌, refl, ap, sym, ◌∙◌, append-nil, append_assoc, ◌≢◌, List, [], ◌∷◌, ◌++◌, map,
  arith, max, All, if_neg, if_pos, dec_str,
}
use ts_commons.Base.JsMap.{JsMap, set, values, Lacks}
use ts_commons.Resilience.Health.{
  HealthStatus, healthy, degraded, unhealthy, Completion, recorded, collect, overall, check,
}

abbrev pub severity : HealthStatus → ℕ
severity healthy = 0
severity degraded = 1
severity unhealthy = 2

abbrev pub worst : List HealthStatus → ℕ
worst [] = 0
worst (s ∷ ss) = max (severity s) (worst ss)

severity-overall : (ss : List HealthStatus) → severity (overall ss) ≡ worst ss
unfolding overall
severity-overall [] = refl
severity-overall (healthy ∷ ss) = ground (arith, severity-overall ss)
severity-overall (degraded ∷ ss) = ground (arith, severity-overall ss)
severity-overall (unhealthy ∷ ss) = ground (arith, severity-overall ss)

-- Distinct names: no two completions are of one indicator.
abbrev pub Unnamed : String → List Completion → Type 0
Unnamed n [] = Unit {0}
Unnamed n (c ∷ cs) = (c.name ≢ n) × Unnamed n cs

abbrev pub HasDistinctNames : List Completion → Type 0
HasDistinctNames [] = Unit {0}
HasDistinctNames (c ∷ cs) = Unnamed c.name cs × HasDistinctNames cs

abbrev pub entry : Completion → String × HealthStatus
entry c = (c.name, recorded c.outcome)

-- A name that the map lacks goes to its end.
set-new :
    (n : String) (s : HealthStatus) (m : JsMap HealthStatus)
    → Lacks n m
    → set n s m ≡ m ++ (n, s) ∷ []
unfolding set
set-new n s [] l = refl
set-new n s ((j, w) ∷ m) l = rw (if_neg _ l.0, set-new n s m l.1)

abbrev AllLacked : JsMap HealthStatus → List Completion → Type 0
AllLacked m [] = Unit {0}
AllLacked m (c ∷ cs) = Lacks c.name m × AllLacked m cs

Lacks-snoc :
    (n j : String) (s : HealthStatus) (m : JsMap HealthStatus)
    → j ≢ n
    → Lacks n m
    → Lacks n (m ++ (j, s) ∷ [])
Lacks-snoc n j s [] h l = (h, tt)
Lacks-snoc n j s ((i, w) ∷ m) h l = (l.0, Lacks-snoc n j s m h l.1)

AllLacked-snoc :
    (j : String) (s : HealthStatus) (m : JsMap HealthStatus) (cs : List Completion)
    → Unnamed j cs
    → AllLacked m cs
    → AllLacked (m ++ (j, s) ∷ []) cs
AllLacked-snoc j s m [] u a = tt
AllLacked-snoc j s m (c ∷ cs) u a =
    (Lacks-snoc c.name j s m (λ e. u.0 (sym e)) a.0, AllLacked-snoc j s m cs u.1 a.1)

collect-entries :
    (m : JsMap HealthStatus) (cs : List Completion)
    → HasDistinctNames cs
    → AllLacked m cs
    → collect m cs ≡ m ++ map entry cs
unfolding collect
collect-entries m [] d a = rw append-nil
collect-entries m (c ∷ cs) d a =
    let s = recorded c.outcome in
    rw (set-new c.name s m a.0) (
      collect-entries (m ++ (c.name, s) ∷ []) cs d.1 (AllLacked-snoc c.name s m cs d.0 a.1)
      ∙ append_assoc m ((c.name, s) ∷ []) (map entry cs))

AllLacked-nil : (cs : List Completion) → AllLacked [] cs
AllLacked-nil [] = tt
AllLacked-nil (c ∷ cs) = (tt, AllLacked-nil cs)

values-entries : (cs : List Completion) → values (map entry cs) ≡ map (λ c. recorded c.outcome) cs
values-entries [] = refl
values-entries (c ∷ cs) = rw (values-entries cs)

-- The indicators have distinct names. In whatever order their checks complete, the report holds for
-- each indicator its status, `unhealthy` where its check threw, and the overall status is the worst
-- of them.
pub check-worst :
    (cs : List Completion) (now : ℕ)
    → HasDistinctNames cs
    → ((check cs now).checks ≡ map entry cs)
      × (severity (check cs now).status ≡ worst (map (λ c. recorded c.outcome) cs))
unfolding check
check-worst cs now d =
    rw (collect-entries [] cs d (AllLacked-nil cs))
      (refl, severity-overall (values (map entry cs)) ∙ ap worst (values-entries cs))

set-one : (n k : String) (s t : HealthStatus) → k ≡ n → set k t ((n, s) ∷ []) ≡ (n, t) ∷ []
unfolding set
set-one n k s t h = rw (if_pos (dec_str n k) (sym h))

collect_same :
    (n : String) (s : HealthStatus) (cs : List Completion) (c : Completion)
    → All (λ b. b.name ≡ n) cs
    → c.name ≡ n
    → collect ((n, s) ∷ []) (cs ++ c ∷ []) ≡ (n, recorded c.outcome) ∷ []
unfolding collect
collect_same n s [] c a h = set-one n c.name s (recorded c.outcome) h
collect_same n s (b ∷ cs) c a h =
    ap (λ m. collect m (cs ++ c ∷ [])) (set-one n b.name s (recorded b.outcome) a.0)
    ∙ collect_same n (recorded b.outcome) cs c a.1 h

overall-one : (s : HealthStatus) → overall (s ∷ []) ≡ s
unfolding overall
overall-one healthy = refl
overall-one degraded = refl
overall-one unhealthy = refl

-- Indicators that share a name overwrite one another: whatever the others of the name report, the
-- overall status is that of the check which completes last, so an unhealthy one can be lost.
pub check_same_name :
    (n : String) (b : Completion) (cs : List Completion) (c : Completion) (now : ℕ)
    → All (λ d. d.name ≡ n) (b ∷ cs)
    → c.name ≡ n
    → (check (b ∷ cs ++ c ∷ []) now).status ≡ recorded c.outcome
unfolding check collect set
check_same_name n b cs c now a h =
    rw (collect_same b.name (recorded b.outcome) cs c (All-name cs a.1) (h ∙ sym a.0))
      (overall-one (recorded c.outcome))
  where
    All-name : (ds : List Completion) → All (λ d. d.name ≡ n) ds → All (λ d. d.name ≡ b.name) ds
    All-name [] t = tt
    All-name (d ∷ ds) t = (t.0 ∙ sym a.0, All-name ds t.1)
