-- ===== src/PubSub/FanOut.antt =====
-- packages/messaging/src/pubsub/FanOutBroker.ts. A handler is its identity, a number, and `effect`
-- says what it does with an envelope: it changes the world, and returns or throws. The handlers do
-- not themselves add or remove subscribers.
use ts_commons.Base.{ℕ, String, none, some, List, [], ◌∷◌}
use ts_commons.Base.JsMap.{JsMap, get, set, delete, values, keys, size}
use ts_commons.Kernel.Result.{Result, ok, err}

pub record FanOutSubscriber : Type 0 where
  pub id : String
  pub handler : ℕ

abbrev pub FanOutBroker : Type 0
FanOutBroker = JsMap FanOutSubscriber

unfoldable pub add_subscriber : FanOutBroker → String → ℕ → FanOutBroker
add_subscriber b id handler = set id (record { id = id; handler = handler }) b

unfoldable pub remove_subscriber : FanOutBroker → String → FanOutBroker
remove_subscriber b id = delete id b

abbrev pub subscriber_count : FanOutBroker → ℕ
subscriber_count b = size b

abbrev pub subscriber_ids : FanOutBroker → List String
subscriber_ids b = keys b

abbrev pub clear : FanOutBroker → FanOutBroker
clear b = []

-- `ids.map(...).filter(...)`
unfoldable pub targets : FanOutBroker → List String → List FanOutSubscriber
targets b [] = []
targets b (id ∷ ids) =
    let rest = targets b ids in elim (get id b) [ none ↦ rest | some s ↦ s ∷ rest ]

module _ {W E V : Type 0} (effect : ℕ → V → W → W × Result (Unit {0}) E) where
  -- The loop of both methods: a handler that throws ends it.
  unfoldable pub call_all : List FanOutSubscriber → V → W → W × Result (Unit {0}) E
  call_all [] envelope w = (w, ok tt)
  call_all (s ∷ ss) envelope w =
      let (w', r) = effect s.handler envelope w in
      let rest = call_all ss envelope w' in elim r [ ok u ↦ rest | err e ↦ (w', err e) ]

  unfoldable pub publish : FanOutBroker → V → W → W × Result (Unit {0}) E
  unfolding call_all
  publish b envelope w = call_all (values b) envelope w

  unfoldable pub publish_to : FanOutBroker → V → List String → W → W × Result (Unit {0}) E
  unfolding call_all targets
  publish_to b envelope ids w = call_all (targets b ids) envelope w
