-- ===== src/PubSub/TopicRouter.antt =====
-- packages/messaging/src/pubsub/TopicRouter.ts. `matchParts` walks the two arrays by indices that
-- only grow, so it is given the parts that are left. A handler is a number, and `effect` says what
-- it does with an envelope.
pub mod Matching
pub mod Delivery
use Prim.Native.Char.{Char, code}
use ts_commons.Base.{
  length, ℕ, suc, ◌+◌, String, Bool, true, false, ◌||◌, not, List, [], ◌∷◌, ◌++◌, if◌then◌else◌,
  ◌==◌, ite, dec_str, keep,
}
use ts_commons.Kernel.Result.{Result, ok, err}

-- A character before the first word of a split text.
abbrev pub prepend : Char → List String → List String
prepend c [] = String.◌∷◌ c String.[] ∷ []
prepend c (w ∷ ws) = String.◌∷◌ c w ∷ ws

-- `s.split('.')`
unfoldable pub split_dots : String → List String
split_dots String.[] = String.[] ∷ []
split_dots (String.◌∷◌ c s) =
    let parts = split_dots s in if code c == b'.' then String.[] ∷ parts else prepend c parts

-- The loop over `j`: the topic's parts from `ti` on, then from the next place, to the empty rest.
unfoldable pub some_rest : (List String → Bool) → List String → Bool
some_rest f [] = f []
some_rest f (t ∷ ts) = f (t ∷ ts) || some_rest f ts

unfoldable pub match_parts : List String → List String → Bool
unfolding some_rest
match_parts [] [] = true
match_parts [] (t ∷ ts) = false
match_parts (seg ∷ ps) [] = ite (dec_str seg "#") (some_rest (match_parts ps) []) false
match_parts (seg ∷ ps) (t ∷ ts) =
    ite (dec_str seg "#") (some_rest (match_parts ps) (t ∷ ts))
      (ite (dec_str seg "*") (match_parts ps ts) (ite (dec_str seg t) (match_parts ps ts) false))

unfoldable pub matches : String → String → Bool
unfolding split_dots match_parts
matches pattern topic = match_parts (split_dots pattern) (split_dots topic)

pub record TopicSubscription : Type 0 where
  pub id : ℕ
  pub pattern : String
  pub handler : ℕ

-- The map of subscriptions, in insertion order, under ids that count up. `set` under an id that has
-- not been used puts the entry at the end.
pub record TopicRouter : Type 0 where
  pub subscriptions : List TopicSubscription
  pub next_id : ℕ

unfoldable pub new : TopicRouter
new = record { subscriptions = []; next_id = 1 }

-- The id stands for the function that `subscribe` returns.
unfoldable pub subscribe : TopicRouter → String → ℕ → TopicRouter × ℕ
subscribe r pattern handler = (
  record {
    subscriptions =
        r.subscriptions ++ record { id = r.next_id; pattern = pattern; handler = handler } ∷ [];
    next_id = r.next_id + 1;
  },
  r.next_id,
)

unfoldable pub unsubscribe : TopicRouter → ℕ → TopicRouter
unsubscribe r id = record r {
  subscriptions = keep (λ s. if s.id == id then false else true) r.subscriptions;
}

unfoldable pub matched : TopicRouter → String → List TopicSubscription
unfolding matches
matched r topic = keep (λ s. matches s.pattern topic) r.subscriptions

abbrev pub subscriber_count : TopicRouter → ℕ
subscriber_count r = length r.subscriptions

abbrev pub clear : TopicRouter → TopicRouter
clear r = record r { subscriptions = [] }

module _ {W E V : Type 0} (effect : ℕ → V → W → W × Result (Unit {0}) E) where
  -- The second loop of `route`: a handler that throws ends it.
  unfoldable pub deliver_each : List TopicSubscription → V → W → W × Result (Unit {0}) E
  deliver_each [] envelope w = (w, ok tt)
  deliver_each (s ∷ ss) envelope w =
      let (w', r) = effect s.handler envelope w in
      let rest = deliver_each ss envelope w' in elim r [ ok u ↦ rest | err e ↦ (w', err e) ]

  unfoldable pub route : TopicRouter → String → V → W → W × Result (Unit {0}) E
  unfolding deliver_each matched
  route r topic envelope w = deliver_each (matched r topic) envelope w
