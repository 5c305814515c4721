-- ===== src/Realtime/Tests.antt =====
-- Runs of the rooms at concrete inputs.
use ts_commons.Base.{
  String, ◌==◌, true, ltb, if◌then◌else◌, ◌≡◌, ◌≢◌, refl, some, List, [], ◌∷◌, dec_str,
}
use ts_commons.Base.JsMap.{get, set, delete}
use ts_commons.Base.JsSet.{contains, add, remove}
use ts_commons.Realtime.Rooms.{
  Call, joins, leaves_all, new, run, is_member, get_room_members, get_connection_rooms,
}
use ts_commons.Realtime.Reconnection
use ts_commons.Realtime.Reconnection.{ReconnectionConfig, exponential}
use ts_commons.Realtime.Reconnection.Doubling.{first_delay, following, since_reset, delays_grow}
use ts_commons.Realtime.Rooms.Refinement.{replay_all, nobody, run_refines}

abbrev calls : List Call
calls = joins "ann" "lobby" ∷ joins "bob" "lobby" ∷ joins "ann" "den" ∷ leaves_all "ann" ∷ []

run_refines_example :
    let r = run new calls in
    let R = replay_all nobody calls in
    ((c x : String)
      → (is_member r c x ≡ R c x)
        × (contains c (get_room_members r x) ≡ R c x)
        × (contains x (get_connection_rooms r c) ≡ R c x))
    × ((k : String) → (get k r.rooms ≢ some []) × (get k r.membership ≢ some []))
run_refines_example = run_refines calls

left_alone : (run new calls).rooms ≡ ("lobby", "bob" ∷ []) ∷ []
unfolding run get set add remove delete dec_str
left_alone = refl

abbrev backoff : ReconnectionConfig
backoff = record {
  strategy = exponential;
  max_attempts = 5;
  base_delay_ms = 1000;
  max_delay_ms = some 3000;
}

abbrev attempts_made : List Reconnection.Call
attempts_made =
    Reconnection.schedules ∷ Reconnection.resets ∷ Reconnection.schedules ∷ Reconnection.schedules
    ∷ []

third_is_capped :
    (Reconnection.schedule (Reconnection.run (Reconnection.new backoff) attempts_made)).1 ≡ 3000
unfolding Reconnection.run Reconnection.schedule Reconnection.get_next_delay
third_is_capped = refl

delays_grow_example :
    let h = Reconnection.run (Reconnection.new backoff) attempts_made in
    ((Reconnection.schedule (Reconnection.step h Reconnection.resets)).1 ≡ first_delay backoff)
    × ((Reconnection.schedule (Reconnection.schedule h).0).1
        ≡ following backoff (Reconnection.schedule h).1)
    × (Reconnection.can_retry h ≡ (
        if backoff.max_attempts == 0
        then true
        else ltb (since_reset 0 attempts_made) backoff.max_attempts))
delays_grow_example = delays_grow backoff attempts_made
