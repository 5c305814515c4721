-- ===== src/Resilience/Hedge/Settlement.antt =====
-- What the promise of `Hedge.execute` is settled to, and that it is settled.
use ts_commons.Base.{
  ℕ, ◌+◌, ◌<◌, ◌≡◌, ◌≢◌, refl, Option, none, some, List, [], ◌∷◌, arith, ◌==◌, if◌then◌else◌,
}
use ts_commons.Base.Int.{pos, ◌-ℤ◌}
use ts_commons.Kernel.Result.{Result, ok, err}
use ts_commons.Resilience.Hedge.{
  Hedge, Event, fulfils, rejects, fires, start, on_fulfil, on_reject, on_timer, step, run,
  CanHappen,
}

module _ {T E : Type 0} where
  -- The first value, given one from before; the number of rejections; the last one.
  abbrev pub first_value : Option T → List (Event T E) → Option T
  first_value f [] = f
  first_value (some v) (e ∷ es) = first_value (some v) es
  first_value none (fulfils v ∷ es) = first_value (some v) es
  first_value none (rejects e ∷ es) = first_value none es
  first_value none (fires ∷ es) = first_value none es

  abbrev pub rejections : ℕ → List (Event T E) → ℕ
  rejections n [] = n
  rejections n (fulfils v ∷ es) = rejections n es
  rejections n (rejects e ∷ es) = rejections (n + 1) es
  rejections n (fires ∷ es) = rejections n es

  abbrev pub last_rejection : Option E → List (Event T E) → Option E
  last_rejection l [] = l
  last_rejection l (fulfils v ∷ es) = last_rejection l es
  last_rejection l (rejects e ∷ es) = last_rejection (some e) es
  last_rejection l (fires ∷ es) = last_rejection l es

  -- The answer that `copies` copies owe after these.
  abbrev pub answer : ℕ → Option T → ℕ → Option E → Option (Result T (Option E))
  answer copies (some v) n l = some (ok v)
  answer copies none n l = if n == copies then some (err l) else none

  record Inv (copies : ℕ) (f : Option T) (n : ℕ) (l : Option E) (h : Hedge T E) : Type 0 where
    settled : h.settled ≡ answer copies f n l
    error : h.last_error ≡ l
    timers : h.timers_pending ≡ pos h.timers_set
    pending : f ≡ none → h.pending ≡ h.in_flight
    launched : f ≡ none → n + h.in_flight + h.timers_set ≡ copies

  start-Inv : (copies : ℕ) → 0 < copies → Inv copies none 0 none (start copies)
  unfolding start
  start-Inv copies p = ground arith

  module _ (copies n : ℕ) (f : Option T) (l : Option E) (h : Hedge T E)
      (v : Inv copies f n l h) where
    fulfil-Inv :
        (x : T)
        → 0 < h.in_flight
        → Inv copies (elim f [ none ↦ some x | some y ↦ some y ]) n l (on_fulfil h x)
    unfolding on_fulfil
    fulfil-Inv x p = ground arith

    reject-Inv : (e : E) → 0 < h.in_flight → Inv copies f (n + 1) (some e) (on_reject h e)
    unfolding on_reject
    reject-Inv e p = ground arith

    timer-Inv : 0 < h.timers_set → Inv copies f n l (on_timer h)
    unfolding on_timer ◌-ℤ◌
    timer-Inv p = ground arith

  step_run-Inv :
      (copies n : ℕ) (f : Option T) (l : Option E) (h : Hedge T E) (es : List (Event T E))
      → Inv copies f n l h
      → CanHappen h es
      → Inv copies (first_value f es) (rejections n es) (last_rejection l es) (run h es)
  unfolding run step
  step_run-Inv copies n f l h [] v c = fulfil_id f v
    where
      fulfil_id : (f : Option T) → Inv copies f n l h → Inv copies (first_value f []) n l h
      fulfil_id none v = v
      fulfil_id (some x) v = v
  step_run-Inv copies n none l h (fulfils x ∷ es) v c =
      step_run-Inv copies n (some x) l _ es (fulfil-Inv copies n none l h v x c.0) c.1
  step_run-Inv copies n (some y) l h (fulfils x ∷ es) v c =
      step_run-Inv copies n (some y) l _ es (fulfil-Inv copies n (some y) l h v x c.0) c.1
  step_run-Inv copies n none l h (rejects e ∷ es) v c =
      step_run-Inv copies (n + 1) none (some e) _ es (reject-Inv copies n none l h v e c.0) c.1
  step_run-Inv copies n (some y) l h (rejects e ∷ es) v c =
      step_run-Inv copies (n + 1) (some y) (some e) _ es (reject-Inv copies n (some y) l h v e c.0)
        c.1
  step_run-Inv copies n none l h (fires ∷ es) v c =
      step_run-Inv copies n none l _ es (timer-Inv copies n none l h v c.0) c.1
  step_run-Inv copies n (some y) l h (fires ∷ es) v c =
      step_run-Inv copies n (some y) l _ es (timer-Inv copies n (some y) l h v c.0) c.1

  quiet-settled :
      (copies n : ℕ) (f : Option T) (l : Option E) (h : Hedge T E)
      → Inv copies f n l h
      → h.in_flight ≡ 0
      → h.timers_set ≡ 0
      → h.settled ≢ none
  quiet-settled copies n none l h v p q = ground arith
  quiet-settled copies n (some x) l h v p q = ground arith

  -- Whatever the order in which the copies settle and the timers fire, with at least one copy: the
  -- promise is fulfilled with the first value that a copy gives; if no copy has given one, it is
  -- rejected, with the last error, when as many copies as were asked for have rejected, and not
  -- before; and it is settled as soon as no copy is in flight and no timer is left.
  pub run-settled :
      (copies : ℕ) (es : List (Event T E))
      → 0 < copies
      → CanHappen (start copies) es
      → ((run (start copies) es).settled
          ≡ answer copies (first_value none es) (rejections 0 es) (last_rejection none es))
        × ((run (start copies) es).in_flight ≡ 0
            → (run (start copies) es).timers_set ≡ 0
            → (run (start copies) es).settled ≢ none)
  run-settled copies es p c =
      let v = step_run-Inv copies 0 none none (start copies) es (start-Inv copies p) c in
      (v.settled, quiet-settled copies _ _ _ _ v)

-- With `copies` 0 one copy is launched all the same. When it rejects, nothing is in flight, no timer
-- is set, and the promise is not settled: it never will be.
pub zero_copies_unsettled :
    {T E : Type 0} (e : E)
    → let h = run (start {T = T} 0) (rejects e ∷ []) in
      CanHappen (start {T = T} 0) (rejects e ∷ [])
      × (h.settled ≡ none)
      × (h.in_flight ≡ 0)
      × (h.timers_set ≡ 0)
unfolding run start
zero_copies_unsettled e = (omega arith, refl, refl, refl)
