-- ===== src/Streams/Windows.antt =====
-- packages/streams/src/WindowStrategy.ts: the three ways to cut a stream into windows, as operators
-- whose source tells its signals with their times. A session's `tick` is a function of its own.
pub mod Tumbling
pub mod Sliding
use ts_commons.Base.{
  ℕ, suc, ◌+◌, ◌-◌, ◌%◌, ◌==◌, Bool, true, false, ◌&&◌, List, [], ◌∷◌, ◌++◌, ltb, leb,
  if◌then◌else◌, length,
}
use ts_commons.Streams.EventStream.{Signal, next, error, complete}
use ts_commons.Streams.Operators.{Operator}
use ts_commons.Streams.Queue.{shift}

pub record StreamWindow (A : Type 0) : Type 0 where
  pub values : List A
  pub opened_at : ℕ
  pub closed_at : ℕ

pub record Buffer (A : Type 0) : Type 0 where
  pub buffer : List A
  pub opened_at : ℕ

pub record Ring (A : Type 0) : Type 0 where
  pub ring : List A
  pub count : ℕ
  pub ring_opened_at : List ℕ

pub record Session (A : Type 0) : Type 0 where
  pub buffer : List A
  pub last_emit_ms : ℕ
  pub opened_at : ℕ
  pub has_items : Bool

-- `push`, and `shift` if that makes the list longer than `size`.
abbrev pub push_shift : {A : Type 0} → ℕ → List A → A → List A
push_shift size xs v =
    if ltb size (length (xs ++ v ∷ [])) then (shift (xs ++ v ∷ [])).1 else xs ++ v ∷ []

abbrev pub first_or : ℕ → List ℕ → ℕ
first_or d [] = d
first_or d (t ∷ ts) = t

module _ {A : Type 0} where
  abbrev pub window : List A → ℕ → ℕ → StreamWindow A
  window values opened_at closed_at = record {
    values = values;
    opened_at = opened_at;
    closed_at = closed_at;
  }

  abbrev pub is_empty : List A → Bool
  is_empty [] = true
  is_empty (x ∷ xs) = false

  unfoldable pub tumbling : ℕ → Operator (Buffer A) A (StreamWindow A)
  tumbling window_size b now (next v) =
      let buffer = b.buffer ++ v ∷ [] in
      if leb window_size (length buffer)
      then (record { buffer = []; opened_at = now }, next (window buffer b.opened_at now) ∷ [])
      else (record b { buffer = buffer }, [])
  tumbling window_size b now (error e) = (b, error e ∷ [])
  tumbling window_size b now complete = (
    b,
    if is_empty b.buffer
        then complete ∷ []
        else next (window b.buffer b.opened_at now) ∷ complete ∷ [],
  )

  unfoldable pub sliding : ℕ → ℕ → Operator (Ring A) A (StreamWindow A)
  sliding size step r now (next v) =
      let ring = push_shift size r.ring v in
      let opened = push_shift size r.ring_opened_at now in
      let count = r.count + 1 in
      (
        record { ring = ring; count = count; ring_opened_at = opened },
        if (count % step == 0) && (length ring == size)
            then next (window ring (first_or now opened) now) ∷ []
            else [],
      )
  sliding size step r now (error e) = (r, error e ∷ [])
  sliding size step r now complete = (r, complete ∷ [])

  unfoldable pub session : Operator (Session A) A (StreamWindow A)
  session s now (next v) = (
    record {
      buffer = s.buffer ++ v ∷ [];
      last_emit_ms = now;
      opened_at = if s.has_items then s.opened_at else now;
      has_items = true;
    },
    [],
  )
  session s now (error e) = (s, error e ∷ [])
  session s now complete = if is_empty s.buffer then (s, complete ∷ []) else (
    record s { buffer = []; has_items = false },
    next (window s.buffer s.opened_at now) ∷ complete ∷ [],
  )

  unfoldable pub tick : ℕ → Session A → ℕ → Session A × List (Signal (StreamWindow A))
  tick gap_ms s now_ms =
      if s.has_items && leb (s.last_emit_ms + gap_ms) now_ms
      then (
        record s { buffer = []; has_items = false; last_emit_ms = now_ms },
        next (window s.buffer s.opened_at now_ms) ∷ [],
      )
      else (s, [])
