-- ===== src/EventSourcing/Reload.antt =====
-- An aggregate is saved by its uncommitted events and rebuilt from its stream.
use ts_commons.Base.{
  ℕ, suc, ◌+◌, String, ◌≡◌, refl, sym, ap, ◌∙◌, List, [], ◌∷◌, ◌++◌, arith, length, length-append,
  append-nil, append_assoc,
}
use ts_commons.Kernel.Result.{ok}
use ts_commons.EventSourcing.Store.{EventStore, stream, get_events, append, append-versions}
use ts_commons.EventSourcing.Aggregate.{
  EventSourcedAggregate, new, load_from_history, raise, mark_committed, run_projection,
}

one_more : (a b : ℕ) → a + 1 + b ≡ a + suc b
one_more a b = omega arith

none_more : (a : ℕ) → a ≡ a + 0
none_more a = omega arith

module _ {S V : Type 0} (apply : S → V → S) where
  -- Events raised one after another.
  abbrev pub raise_all : EventSourcedAggregate S V → List V → EventSourcedAggregate S V
  raise_all a [] = a
  raise_all a (e ∷ es) = raise_all (raise apply a e) es

  load_lem :
      (a : EventSourcedAggregate S V) (es : List V)
      → load_from_history apply a es
        ≡ record a { state = run_projection apply a.state es; version = a.version + length es }
  unfolding load_from_history run_projection
  load_lem a [] = ground arith
  load_lem a (e ∷ es) =
      load_lem (record a { state = apply a.state e; version = a.version + 1 }) es
      ∙ ap (λ n. record a { state = run_projection apply (apply a.state e) es; version = n })
          (one_more a.version (length es))

  raise_lem :
      (a : EventSourcedAggregate S V) (es : List V)
      → raise_all a es ≡ record {
        state = run_projection apply a.state es;
        version = a.version + length es;
        uncommitted_events = a.uncommitted_events ++ es;
      }
  unfolding raise run_projection
  raise_lem a [] =
      ap (λ n. record a { version = n }) (none_more a.version)
      ∙ ap (λ l. record a { version = a.version + 0; uncommitted_events = l })
          (sym (append-nil a.uncommitted_events))
  raise_lem a (e ∷ es) =
      raise_lem (raise apply a e) es
      ∙ ap
          (λ n. record {
            state = run_projection apply (apply a.state e) es;
            version = n;
            uncommitted_events = (a.uncommitted_events ++ e ∷ []) ++ es;
          })
          (one_more a.version (length es))
      ∙ ap
          (λ l. record {
            state = run_projection apply (apply a.state e) es;
            version = a.version + suc (length es);
            uncommitted_events = l;
          })
          (append_assoc a.uncommitted_events (e ∷ []) es)

  run_projection-append :
      (s : S) (es fs : List V)
      → run_projection apply s (es ++ fs) ≡ run_projection apply (run_projection apply s es) fs
  unfolding run_projection
  run_projection-append s [] fs = refl
  run_projection-append s (e ∷ es) fs = run_projection-append (apply s e) es fs

  -- An aggregate is rebuilt from a stream, raises events, and its uncommitted events are appended
  -- for the version that it was rebuilt at. The append succeeds; to rebuild the aggregate from the
  -- stream then gives the same state and version, with nothing uncommitted; and so does a state
  -- taken at the first version, as a snapshot does, on which the events from there on are run.
  pub save_reload :
      {W : Type 0} (effect : ℕ → V → W → W) (s : EventStore V) (i : String) (initial : S)
      (es : List V) (w : W)
      → let loaded = load_from_history apply (new apply initial) (get_events s i 0) in
        let raised = raise_all loaded es in
        let (s', w', r) = append effect s i raised.uncommitted_events loaded.version w in
        (r ≡ ok tt)
        × (load_from_history apply (new apply initial) (get_events s' i 0) ≡ mark_committed raised)
        × (run_projection apply loaded.state (get_events s' i loaded.version) ≡ raised.state)
  unfolding get_events new mark_committed
  save_reload effect s i initial es w =
      let start : EventSourcedAggregate S V = record {
        state = initial;
        version = 0;
        uncommitted_events = [];
      } in
      let count : 0 + length (stream s i ++ es) ≡ 0 + length (stream s i) + length es =
        omega (arith, length-append (stream s i) es) in
      let (ok_, stored, others, later, refused) =
        (append-versions effect s i i es [] (0 + length (stream s i)) w).1 (omega arith) in
      rw (load_lem start (stream s i)) (
        rw
          (raise_lem
            (record start {
              state = run_projection apply initial (stream s i);
              version = 0 + length (stream s i);
            })
            es)
          (
            ok_,
            ap (load_from_history apply start) stored
                ∙ load_lem start (stream s i ++ es)
                ∙ ap (λ x. record start { state = x; version = 0 + length (stream s i ++ es) })
                    (run_projection-append initial (stream s i) es)
                ∙ ap
                    (λ n. record start {
                      state = run_projection apply (run_projection apply initial (stream s i)) es;
                      version = n;
                    })
                    count,
            ap (run_projection apply (run_projection apply initial (stream s i))) later,
          ))
