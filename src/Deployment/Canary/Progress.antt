-- ===== src/Deployment/Canary/Progress.antt =====
-- How the weight of a release and its phase go.
use ts_commons.Base.{
  ℕ, String, ◌+◌, ◌≤◌, min, ◌≡◌, ◌≢◌, refl, sym, ap, ◌∙◌, subst, true, false, List, [], ◌∷◌, ◌++◌,
  arith, or_else, leb, ◌==◌, if◌then◌else◌, Bool-cases, inl, inr,
}
use ts_commons.Deployment.Canary.{
  CanaryPhase, initializing, progressing, paused, succeeded, failed, rolled_back, CanaryMetrics,
  CanaryConfig, CanaryRelease, AlertReason, alert, new, phase_code, set_phase, meets_thresholds,
  failure_reason, analyse, promote, rollback, pause, resume, Call, promotes, analyses, rolls_back,
  pauses, resumes, run,
}

-- The phase that was told last, or the first.
abbrev pub last_phase : CanaryPhase → List CanaryPhase → CanaryPhase
last_phase p [] = p
last_phase p (q ∷ qs) = last_phase q qs

-- No phase is told twice in a row.
abbrev pub Changes : CanaryPhase → List CanaryPhase → Type 0
Changes p [] = Unit {0}
Changes p (q ∷ qs) = (p ≢ q) × Changes q qs

last_phase-append : (p q : CanaryPhase) (qs : List CanaryPhase) → last_phase p (qs ++ q ∷ []) ≡ q
last_phase-append p q [] = refl
last_phase-append p q (r ∷ qs) = last_phase-append r q qs

Changes-append :
    (p q : CanaryPhase) (qs : List CanaryPhase)
    → Changes p qs
    → last_phase p qs ≢ q
    → Changes p (qs ++ q ∷ [])
Changes-append p q [] c ne = (ne, tt)
Changes-append p q (r ∷ qs) c ne = (c.0, Changes-append r q qs c.1 ne)

pub record Inv (r : CanaryRelease) : Type 0 where
  within : r.canary_weight ≤ 100
  told : r.phase ≡ last_phase initializing r.phases
  changes : Changes initializing r.phases

same_code : (p : CanaryPhase) → (phase_code p == phase_code p) ≡ true
same_code initializing = refl
same_code progressing = refl
same_code paused = refl
same_code succeeded = refl
same_code failed = refl
same_code rolled_back = refl

set_phase-Inv : (p : CanaryPhase) (r : CanaryRelease) → Inv r → Inv (set_phase p r)
unfolding set_phase
set_phase-Inv p r i = elim (Bool-cases (phase_code r.phase == phase_code p)) [
  | inl e ↦ rw e i
  | inr e ↦ rw e (record {
    within = i.within;
    told = sym (last_phase-append initializing p r.phases);
    changes =
        Changes-append initializing p r.phases i.changes
          (λ q. cc (e, ap (λ s. phase_code s == phase_code p) (i.told ∙ q) ∙ same_code p));
  })
]

analyse-Inv :
    (r : CanaryRelease) (stable canary : CanaryMetrics) → Inv r → Inv (analyse r stable canary).0
unfolding analyse
analyse-Inv r stable canary i = elim (Bool-cases (meets_thresholds r canary stable)) [
  | inl e ↦ rw (e, analyse) i
  | inr e ↦ rw (e, analyse) (set_phase-Inv failed r i)
]

abbrev pub raise_weight : CanaryRelease → ℕ → CanaryRelease
raise_weight r now = record r {
  canary_weight = min 100 (r.canary_weight + r.step_size);
  last_updated_at = now;
}

pub promote_passed :
    (r : CanaryRelease) (now : ℕ) (stable canary : CanaryMetrics)
    → meets_thresholds r canary stable ≡ true
    → promote r now stable canary
      ≡ set_phase
          (if leb 100 (min 100 (r.canary_weight + r.step_size)) then succeeded else progressing)
          (raise_weight r now)
unfolding promote analyse
promote_passed r now stable canary e = rw (e, promote, analyse) refl

promote_failed :
    (r : CanaryRelease) (now : ℕ) (stable canary : CanaryMetrics)
    → meets_thresholds r canary stable ≡ false
    → promote r now stable canary
      ≡ alert (failure_reason r canary) (set_phase failed (set_phase failed r))
unfolding promote analyse
promote_failed r now stable canary e = rw (e, promote, analyse) refl

alert-Inv : (a : AlertReason) (r : CanaryRelease) → Inv r → Inv (alert a r)
alert-Inv a r i = record { within = i.within; told = i.told; changes = i.changes }

min-le : (n : ℕ) → min 100 n ≤ 100
min-le n = omega arith

promote-Inv :
    (r : CanaryRelease) (now : ℕ) (stable canary : CanaryMetrics)
    → Inv r
    → Inv (promote r now stable canary)
promote-Inv r now stable canary i = elim (Bool-cases (meets_thresholds r canary stable)) [
  | inl e ↦ subst Inv (sym (promote_passed r now stable canary e)) (
      set_phase-Inv _ (raise_weight r now)
        (record { within = min-le _; told = i.told; changes = i.changes }))
  | inr e ↦
      subst Inv (sym (promote_failed r now stable canary e))
        (alert-Inv _ _ (set_phase-Inv failed (set_phase failed r) (set_phase-Inv failed r i)))
]

rollback-Inv : (r : CanaryRelease) (now : ℕ) (reason : String) → Inv r → Inv (rollback r now reason)
unfolding rollback
rollback-Inv r now reason i = alert-Inv _ _ (
    set_phase-Inv rolled_back (record r { canary_weight = 0; last_updated_at = now })
      (record { within = omega arith; told = i.told; changes = i.changes }))

resume-Inv : (r : CanaryRelease) → Inv r → Inv (resume r)
unfolding resume
resume-Inv r i = elim (Bool-cases (phase_code r.phase == phase_code paused)) [
  | inl e ↦ rw (e, resume) (set_phase-Inv progressing r i)
  | inr e ↦ rw (e, resume) i
]

run-Inv : (r : CanaryRelease) (cs : List Call) → Inv r → Inv (run r cs)
unfolding run pause
run-Inv r [] i = i
run-Inv r (promotes now stable canary ∷ cs) i =
    run-Inv (promote r now stable canary) cs (promote-Inv r now stable canary i)
run-Inv r (analyses stable canary ∷ cs) i =
    run-Inv (analyse r stable canary).0 cs (analyse-Inv r stable canary i)
run-Inv r (rolls_back now reason ∷ cs) i =
    run-Inv (rollback r now reason) cs (rollback-Inv r now reason i)
run-Inv r (pauses ∷ cs) i = run-Inv (pause r) cs (set_phase-Inv paused r i)
run-Inv r (resumes ∷ cs) i = run-Inv (resume r) cs (resume-Inv r i)

-- A release that starts with a weight of 100 at most has one after any calls; its phase is the last
-- that its handlers were told, and they are told no phase twice in a row.
pub run-within :
    (now : ℕ) (config : CanaryConfig) (cs : List Call)
    → or_else config.initial_weight 5 ≤ 100
    → let r = run (new now config) cs in
      (r.canary_weight ≤ 100)
      × (r.phase ≡ last_phase initializing r.phases)
      × Changes initializing r.phases
run-within now config cs le =
    let i = run-Inv (new now config) cs (record { within = le; told = refl; changes = tt }) in
    (i.within, i.told, i.changes)
