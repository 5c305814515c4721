-- ===== src/PubSub/Tests.antt =====
-- Runs of the publish-subscribe parts, and their theorems at concrete inputs.
use ts_commons.Base.{
  ℕ, map, String, some, none, ◌==◌, ◌≡◌, ◌↔◌, refl, List, [], ◌∷◌, true, false, if◌then◌else◌, All,
  dec_str,
}
use ts_commons.Base.JsMap.{get, set}
use ts_commons.PubSub.TopicRouter
use ts_commons.PubSub.TopicRouter.Matching
use ts_commons.PubSub.TopicRouter.Delivery
use ts_commons.PubSub.RequestReply
use ts_commons.PubSub.RequestReply.InFlight
use ts_commons.PubSub.MessageFilter
use ts_commons.PubSub.MessageFilter.{MessageFilterOptions, EventEnvelope}
use ts_commons.PubSub.MessageFilter.Heard.{heard, expected, Keeps, hears_filtered}

matches_iff_example :
    (TopicRouter.matches "orders.#" "orders.eu.created" ≡ true)
    ↔ Matching.Matches
        (TopicRouter.split_dots "orders.#")
        (TopicRouter.split_dots "orders.eu.created")
matches_iff_example = Matching.matches_iff "orders.#" "orders.eu.created"

orders_match : TopicRouter.matches "orders.#" "orders.eu.created" ≡ true
unfolding TopicRouter.matches dec_str
orders_match = refl

one_word_differs : TopicRouter.matches "orders.*" "orders.eu.created" ≡ false
unfolding TopicRouter.matches dec_str
one_word_differs = refl

abbrev earlier_calls : List Delivery.Call
earlier_calls =
    Delivery.subscribes "orders.*" 7 ∷ Delivery.subscribes "#" 8 ∷ Delivery.unsubscribes 1 ∷ []

-- Two requests in flight; the first is cancelled.
abbrev in_flight : List InFlight.Event
in_flight = InFlight.awaits "a" ∷ InFlight.awaits "b" ∷ InFlight.cancels "a" ∷ []

in_flight-CanHappen : InFlight.CanHappen RequestReply.new in_flight
unfolding RequestReply.new InFlight.step RequestReply.await_reply get set dec_str
in_flight-CanHappen = (refl, (refl, (tt, tt)))

run-new-IsAnswerable_example :
    All
      (InFlight.IsAnswerable (InFlight.run RequestReply.new in_flight))
      (InFlight.run RequestReply.new in_flight).timers
run-new-IsAnswerable_example = InFlight.run-new-IsAnswerable in_flight in_flight-CanHappen

abbrev orders_only : MessageFilterOptions ℕ
orders_only = record {
  allowed_types = some ("order" ∷ "refund" ∷ []);
  denied_types = some ("refund" ∷ []);
  custom_filter = some (λ e. if e.payload == 0 then false else true);
  correlation_id = none;
}

abbrev envelope : String → ℕ → EventEnvelope ℕ
envelope t n = record { event_id = "e"; event_type = t; correlation_id = none; payload = n }

abbrev others_first : List (MessageFilter.Call ℕ)
others_first =
    MessageFilter.subscribes 5 ∷ MessageFilter.subscribes 6 ∷ MessageFilter.unsubscribes 1 ∷ []

abbrev then_routed : List (MessageFilter.Call ℕ)
then_routed =
    MessageFilter.routes (envelope "order" 3) (λ id. id == 3)
    ∷ MessageFilter.routes (envelope "order" 2) (λ id. id == 2)
    ∷ MessageFilter.unsubscribes 2
    ∷ MessageFilter.routes (envelope "refund" 4) (λ id. false)
    ∷ MessageFilter.routes (envelope "order" 1) (λ id. id == 2)
    ∷ []

abbrev two_there : MessageFilter.FilteredRouter ℕ
two_there = (MessageFilter.run (MessageFilter.new orders_only) others_first).0

then_routed-Keeps : Keeps (MessageFilter.subscribe two_there 7).1 then_routed
unfolding MessageFilter.run MessageFilter.subscribe MessageFilter.unsubscribe
then_routed-Keeps = ((λ e. cc e), tt)

-- The envelope for which the handler of subscriber 2 fails is missed.
one_missed :
    expected orders_only (2 ∷ []) then_routed ≡ envelope "order" 3 ∷ envelope "order" 1 ∷ []
unfolding MessageFilter.passes MessageFilter.passes_type_checks
    MessageFilter.passes_correlation_check MessageFilter.passes_custom_filter dec_str
one_missed = refl

hears_filtered_example :
    heard
      (MessageFilter.subscribe two_there 7).1
      (MessageFilter.run (MessageFilter.subscribe two_there 7).0 then_routed).1
    ≡ expected orders_only (map (λ s. s.0) two_there.subscribers) then_routed
hears_filtered_example = hears_filtered orders_only others_first then_routed 7 then_routed-Keeps
