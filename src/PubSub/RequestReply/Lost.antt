-- ===== src/PubSub/RequestReply/Lost.antt =====
-- Two requests in flight under one correlation id.
use ts_commons.Base.{◌+◌, String, ◌≡◌, some, false}
use ts_commons.Base.JsMap.{get, set, get-delete_self, get-set_self}
use ts_commons.PubSub.RequestReply.{RequestReplyBroker, await_reply, on_timeout, deliver}

-- A second request under a correlation id that is still awaited takes the first one's place, and
-- the first one's timer then removes the second: when it has fired, a reply finds no request, though
-- the second has not timed out. So it is from every state of the broker and for every id.
pub reused_id_loses_reply :
    (b : RequestReplyBroker) (c : String)
    → let b' = await_reply (await_reply b c) c in
      let fired = on_timeout b' (record { request = b.next_request; correlation_id = c }) in
      (get c b'.pending ≡ some (b.next_request + 1)) × (deliver fired (some c) ≡ (fired, false))
unfolding await_reply on_timeout deliver
reused_id_loses_reply b c = (
  get-set_self c (b.next_request + 1) (set c b.next_request b.pending),
  rw (get-delete_self c (set c (b.next_request + 1) (set c b.next_request b.pending)), deliver),
)
