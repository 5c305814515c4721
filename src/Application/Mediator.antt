-- ===== src/Application/Mediator.antt =====
-- packages/application/src/mediator: the registry of handlers, the sorted behaviours and the
-- pipeline, with the three behaviours that come with it. Requests are sent one after another: a
-- `send` is followed until its promise settles, and a rejection is a value. What an effect reads
-- and changes is a `World` of the caller's.
pub mod Sorting
pub mod Behaviors
pub mod Stack
use ts_commons.Base.{
  ℕ, suc, ◌+◌, String, Option, none, some, Bool, List, [], ◌∷◌, ◌++◌, or_else, if◌then◌else◌,
  length,
}
use ts_commons.Base.Int.{ℤ, pos, leb_ℤ}
use ts_commons.Base.JsMap.{JsMap, get, set, size}

-- What an error was made of: no handler for a request's type, the messages of a failed validation,
-- or what a handler threw.
pub data Failure : Type 0 where
  unregistered : String → Failure
  invalid : List String → Failure
  thrown : String → Failure

-- How a promise settled.
pub data Outcome (A : Type 0) : Type 0 where
  resolved : A → Outcome A
  rejected : Failure → Outcome A

-- Something awaited.
abbrev pub Effect : Type 0 → Type 0 → Type 0
Effect S A = S → S × Outcome A

-- `type_name` is `request.constructor.name`.
pub record Request (B : Type 0) : Type 0 where
  pub type_name : String
  pub body : B

module _ (S B A : Type 0) where
  abbrev pub RequestHandler : Type 0
  RequestHandler = Request B → Effect S A

  pub record PipelineBehavior : Type 0 where
    pub order : Option ℤ
    pub handle : Request B → Effect S A → Effect S A

  pub record Mediator : Type 0 where
    pub handlers : JsMap RequestHandler
    pub behaviors : List PipelineBehavior

module _ {S B A : Type 0} where
  abbrev pub order_of : PipelineBehavior S B A → ℤ
  order_of b = or_else b.order (pos 0)

  -- `Array.prototype.sort` is stable: an element is put after the earlier ones of its order.
  unfoldable pub insert_sorted :
      PipelineBehavior S B A → List (PipelineBehavior S B A) → List (PipelineBehavior S B A)
  insert_sorted x [] = x ∷ []
  insert_sorted x (y ∷ ys) =
      let rest = insert_sorted x ys in
      if leb_ℤ (order_of y) (order_of x) then y ∷ rest else x ∷ y ∷ ys

  unfoldable pub sort_onto :
      List (PipelineBehavior S B A) → List (PipelineBehavior S B A) → List (PipelineBehavior S B A)
  unfolding insert_sorted
  sort_onto done [] = done
  sort_onto done (x ∷ xs) = sort_onto (insert_sorted x done) xs

  abbrev pub new : Mediator S B A
  new = record { handlers = []; behaviors = [] }

  abbrev pub register : String → RequestHandler S B A → Mediator S B A → Mediator S B A
  register name handler m = record m { handlers = set name handler m.handlers }

  unfoldable pub add_behavior : PipelineBehavior S B A → Mediator S B A → Mediator S B A
  unfolding sort_onto
  add_behavior b m = record m { behaviors = sort_onto [] (m.behaviors ++ b ∷ []) }

  -- The behaviours from an index on are the list that is left.
  unfoldable pub run_pipeline :
      Request B → RequestHandler S B A → List (PipelineBehavior S B A) → Effect S A
  run_pipeline request handler [] = handler request
  run_pipeline request handler (b ∷ bs) = b.handle request (run_pipeline request handler bs)

  unfoldable pub send : Mediator S B A → Request B → Effect S A
  unfolding run_pipeline
  send m request = elim (get request.type_name m.handlers) [
    | none ↦ λ s. (s, rejected (unregistered request.type_name))
    | some handler ↦ run_pipeline request handler m.behaviors
  ]

  abbrev pub handler_count : Mediator S B A → ℕ
  handler_count m = size m.handlers

  abbrev pub behavior_count : Mediator S B A → ℕ
  behavior_count m = length m.behaviors
