-- ===== src/Resilience/Hedge.antt =====
-- packages/resilience/src/hedge/Hedge.ts. The promise's callbacks and the timers' callbacks are the
-- events; the event loop around them is the number of copies in flight and of timers still set.
pub mod Settlement
use ts_commons.Base.{
  ℕ, zero, suc, ◌+◌, ◌-◌, ◌<◌, Option, none, some, Bool, true, false, not, List, [], ◌∷◌, ◌&&◌,
  if◌then◌else◌, ◌==◌,
}
use ts_commons.Base.Int.{ℤ, pos, negsuc, sub_ℕ, ◌-ℤ◌}
use ts_commons.Kernel.Result.{Result, ok, err}

-- The variables that the callbacks of one `execute` share. `settled` is that flag with what the
-- promise was settled to. `timersPending` starts at `copies - 1`, which may be negative.
pub record Hedge {ℓ κ} (T : Type ℓ) (E : Type κ) : Type (ℓ ⊔ κ) where
  pub settled : Option (Result T (Option E))
  pub pending : ℕ
  pub timers_pending : ℤ
  pub last_error : Option E
  -- the event loop: copies that have not settled, and timers that have not fired
  pub in_flight : ℕ
  pub timers_set : ℕ

abbrev pub is_zero : ℤ → Bool
is_zero (pos n) = n == 0
is_zero (negsuc n) = false

-- What a callback is called for: a copy fulfils or rejects, or a timer fires.
pub data Event {ℓ κ} (T : Type ℓ) (E : Type κ) : Type (ℓ ⊔ κ) where
  fulfils : T → Event T E
  rejects : E → Event T E
  fires : Event T E

module _ {ℓ κ} {T : Type ℓ} {E : Type κ} where
  abbrev pub is_settled : Hedge T E → Bool
  is_settled h = elim h.settled [ none ↦ false | some r ↦ true ]

  -- The rejection is with `lastError`, which the source turns into an `Error` if it is none.
  unfoldable pub try_reject : Hedge T E → Hedge T E
  try_reject h =
      if h.pending == 0 && (is_zero h.timers_pending && not (is_settled h))
      then record h { settled = some (err h.last_error) }
      else h

  unfoldable pub launch : Hedge T E → Hedge T E
  launch h = record h { pending = h.pending + 1; in_flight = h.in_flight + 1 }

  -- A copy in flight fulfils, or rejects.
  unfoldable pub on_fulfil : Hedge T E → T → Hedge T E
  on_fulfil h v =
      let h' = record h { in_flight = h.in_flight - 1 } in
      if is_settled h' then h' else record h' { settled = some (ok v) }

  unfoldable pub on_reject : Hedge T E → E → Hedge T E
  unfolding try_reject
  on_reject h e =
      try_reject
        (record h { last_error = some e; pending = h.pending - 1; in_flight = h.in_flight - 1 })

  unfoldable pub on_timer : Hedge T E → Hedge T E
  unfolding try_reject launch
  on_timer h =
      let h' = record h {
        timers_pending = h.timers_pending -ℤ pos 1;
        timers_set = h.timers_set - 1;
      } in
      if is_settled h' then try_reject h' else launch h'

  -- `execute` itself: the first copy is launched, and a timer is set for each later one.
  unfoldable pub start : ℕ → Hedge T E
  unfolding launch
  start copies = launch (record {
    settled = none;
    pending = 0;
    timers_pending = sub_ℕ copies 1;
    last_error = none;
    in_flight = 0;
    timers_set = copies - 1;
  })

  unfoldable pub step : Hedge T E → Event T E → Hedge T E
  unfolding on_fulfil on_reject on_timer
  step h (fulfils v) = on_fulfil h v
  step h (rejects e) = on_reject h e
  step h fires = on_timer h

  unfoldable pub run : Hedge T E → List (Event T E) → Hedge T E
  unfolding step
  run h [] = h
  run h (e ∷ es) = run (step h e) es

  -- An event can happen if there is a copy in flight, or a timer set.
  abbrev pub IsEnabled : Hedge T E → Event T E → Type 0
  IsEnabled h (fulfils v) = 0 < h.in_flight
  IsEnabled h (rejects e) = 0 < h.in_flight
  IsEnabled h fires = 0 < h.timers_set

  abbrev pub CanHappen : Hedge T E → List (Event T E) → Type 0
  CanHappen h [] = Unit {0}
  CanHappen h (e ∷ es) = IsEnabled h e × CanHappen (step h e) es
