-- ===== src/EventSourcing/Store.antt =====
-- packages/eventsourcing/src/EventStore.ts. A handler is its identity, a number, and `effect` says
-- what it does to the world with an event; it returns, and does not itself append or subscribe.
use ts_commons.Base.{
  ℕ, zero, suc, ◌+◌, ◌==◌, ◌<◌, String, ◌≡◌, ◌≢◌, refl, sym, ap, ◌∙◌, List, [], ◌∷◌, ◌++◌, arith,
  length, length-append, or_else, if◌then◌else◌,
}
use ts_commons.Base.JsMap.{JsMap, get, set, get-set_self, get-set_ne}
use ts_commons.Kernel.Result.{Result, ok, err}

pub record ConcurrencyError : Type 0 where
  pub stream_id : String
  pub expected : ℕ
  pub actual : ℕ

pub record EventStore (V : Type 0) : Type 0 where
  pub streams : JsMap (List V)
  pub handlers : List ℕ

-- `events.slice(n)`
abbrev pub drop {ℓ} : {A : Type ℓ} → ℕ → List A → List A
drop zero xs = xs
drop (suc n) [] = []
drop (suc n) (x ∷ xs) = drop n xs

abbrev pub stream : {V : Type 0} → EventStore V → String → List V
stream s stream_id = or_else (get stream_id s.streams) []

unfoldable pub get_events : {V : Type 0} → EventStore V → String → ℕ → List V
get_events s stream_id from_version = drop from_version (stream s stream_id)

unfoldable pub subscribe : {V : Type 0} → EventStore V → ℕ → EventStore V
subscribe s handler = record s { handlers = s.handlers ++ handler ∷ [] }

-- `indexOf` and `splice`: the first registration of the handler goes.
unfoldable pub remove_first : ℕ → List ℕ → List ℕ
remove_first h [] = []
remove_first h (x ∷ xs) = let rest = remove_first h xs in if x == h then xs else x ∷ rest

unfoldable pub unsubscribe : {V : Type 0} → EventStore V → ℕ → EventStore V
unfolding remove_first
unsubscribe s handler = record s { handlers = remove_first handler s.handlers }

drop-append {ℓ} : {A : Type ℓ} (xs ys : List A) → drop (length xs) (xs ++ ys) ≡ ys
drop-append [] ys = refl
drop-append (x ∷ xs) ys = drop-append xs ys

module _ {W V : Type 0} (effect : ℕ → V → W → W) where
  -- The inner loop of `append`, for one event, and the outer one.
  unfoldable pub notify : List ℕ → V → W → W
  notify [] event w = w
  notify (h ∷ hs) event w = notify hs event (effect h event w)

  unfoldable pub notify_all : List ℕ → List V → W → W
  unfolding notify
  notify_all hs [] w = w
  notify_all hs (e ∷ es) w = notify_all hs es (notify hs e w)

  unfoldable pub append :
      EventStore V → String → List V → ℕ → W → EventStore V × W × Result (Unit {0}) ConcurrencyError
  unfolding notify_all
  append s stream_id events expected_version w =
      let current = stream s stream_id in
      if length current == expected_version
      then (
        record s { streams = set stream_id (current ++ events) s.streams },
        notify_all s.handlers events w,
        ok tt,
      )
      else (
        s,
        w,
        err (record {
          stream_id = stream_id;
          expected = expected_version;
          actual = length current;
        }),
      )

  append-fits :
      (s : EventStore V) (i : String) (es : List V) (v : ℕ) (w : W)
      → v ≡ length (stream s i)
      → append s i es v w ≡ (
        record s { streams = set i (stream s i ++ es) s.streams },
        notify_all s.handlers es w,
        ok tt,
      )
  unfolding append
  append-fits s i es v w e = ground (arith, e)

  append-misses :
      (s : EventStore V) (i : String) (es : List V) (v : ℕ) (w : W)
      → v ≢ length (stream s i)
      → append s i es v w
        ≡ (s, w, err (record { stream_id = i; expected = v; actual = length (stream s i) }))
  unfolding append
  append-misses s i es v w ne = ground (arith, ne)

  -- A length that differs from the expected version is refused, with both numbers, and changes
  -- nothing; otherwise the events are put behind the stream's, no other stream changes, and
  -- `getEvents` from the expected version on gives exactly the new events. So of two appends that
  -- expect the same version, the first with at least one event, the second is refused.
  pub append-versions :
      (s : EventStore V) (i j : String) (es fs : List V) (v : ℕ) (w : W)
      → (v ≢ length (stream s i)
          → append s i es v w
            ≡ (s, w, err (record { stream_id = i; expected = v; actual = length (stream s i) })))
        × (v ≡ length (stream s i)
            → let (s', w', r) = append s i es v w in
              (r ≡ ok tt)
              × (stream s' i ≡ stream s i ++ es)
              × (i ≢ j → stream s' j ≡ stream s j)
              × (get_events s' i v ≡ es)
              × (0 < length es
                  → append s' i fs v w' ≡ (
                    s',
                    w',
                    err (record { stream_id = i; expected = v; actual = v + length es }),
                  )))
  unfolding get_events
  append-versions s i j es fs v w = (append-misses s i es v w, fits)
    where
      after : EventStore V
      after = record s { streams = set i (stream s i ++ es) s.streams }

      stored : stream after i ≡ stream s i ++ es
      stored = ap (λ o. or_else o []) (get-set_self i (stream s i ++ es) s.streams)

      longer : v ≡ length (stream s i) → length (stream after i) ≡ v + length es
      longer e = ap length stored ∙ length-append (stream s i) es ∙ ap (λ n. n + length es) (sym e)

      second :
          v ≡ length (stream s i)
          → (w' : W) → 0 < length es
          → append after i fs v w'
            ≡ (after, w', err (record { stream_id = i; expected = v; actual = v + length es }))
      second e w' p =
          append-misses after i fs v w' (λ q. absurd (omega (arith, q, p, longer e)))
          ∙ ap (λ n. (after, w', err (record { stream_id = i; expected = v; actual = n })))
              (longer e)

      fits :
          v ≡ length (stream s i)
          → let (s', w', r) = append s i es v w in
            (r ≡ ok tt)
            × (stream s' i ≡ stream s i ++ es)
            × (i ≢ j → stream s' j ≡ stream s j)
            × (get_events s' i v ≡ es)
            × (0 < length es
                → append s' i fs v w'
                  ≡ (s', w', err (record { stream_id = i; expected = v; actual = v + length es })))
      fits e = rw (append-fits s i es v w e) (
        refl,
        stored,
        λ ne. ap (λ o. or_else o []) (get-set_ne i j (stream s i ++ es) s.streams ne),
        ap (drop v) stored ∙ ap (λ n. drop n (stream s i ++ es)) e ∙ drop-append (stream s i) es,
        second e (notify_all s.handlers es w),
      )
