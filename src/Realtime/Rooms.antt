-- ===== src/Realtime/Rooms.antt =====
-- packages/websocket/src/RoomManager.ts: which connections are in which rooms, kept from both sides.
pub mod Membership
pub mod Refinement
use ts_commons.Base.{
  ℕ, String, Option, none, some, Bool, true, false, List, [], ◌∷◌, or_else, if◌then◌else◌,
}
use ts_commons.Base.JsMap.{JsMap, get, set, delete, keys, size}
use ts_commons.Base.JsSet.{JsSet, contains, add, remove}

pub record RoomManager : Type 0 where
  pub rooms : JsMap JsSet
  pub membership : JsMap JsSet

abbrev pub new : RoomManager
new = record { rooms = []; membership = [] }

-- A missing set is made first.
unfoldable pub add_to_set : JsMap JsSet → String → String → JsMap JsSet
add_to_set m k value = set k (add value (or_else (get k m) [])) m

-- A set that is empty after the removal is taken out of the map.
unfoldable pub remove_from_set : JsMap JsSet → String → String → JsMap JsSet
remove_from_set m k value = elim (get k m) [
  | none ↦ m
  | some s ↦ elim (remove value s) [ [] ↦ delete k m | x ∷ xs ↦ set k (x ∷ xs) m ]
]

unfoldable pub join : String → String → RoomManager → RoomManager
unfolding add_to_set
join connection room r = record {
  rooms = add_to_set r.rooms room connection;
  membership = add_to_set r.membership connection room;
}

unfoldable pub leave : String → String → RoomManager → RoomManager
unfolding remove_from_set
leave connection room r = record {
  rooms = remove_from_set r.rooms room connection;
  membership = remove_from_set r.membership connection room;
}

unfoldable pub leave_each : String → List String → RoomManager → RoomManager
unfolding leave
leave_each connection [] r = r
leave_each connection (room ∷ rs) r = leave_each connection rs (leave connection room r)

-- The loop goes over a copy of the connection's rooms.
unfoldable pub leave_all : String → RoomManager → RoomManager
unfolding leave_each
leave_all connection r = leave_each connection (or_else (get connection r.membership) []) r

abbrev pub get_room_members : RoomManager → String → List String
get_room_members r room = or_else (get room r.rooms) []

abbrev pub get_connection_rooms : RoomManager → String → List String
get_connection_rooms r connection = or_else (get connection r.membership) []

abbrev pub room_ids : RoomManager → List String
room_ids r = keys r.rooms

abbrev pub room_count : RoomManager → ℕ
room_count r = size r.rooms

abbrev pub is_member : RoomManager → String → String → Bool
is_member r connection room = elim (get room r.rooms) [
  | none ↦ false
  | some s ↦ contains connection s
]

-- A call on the manager.
pub data Call : Type 0 where
  joins : String → String → Call
  leaves : String → String → Call
  leaves_all : String → Call

abbrev pub step : RoomManager → Call → RoomManager
step r (joins connection room) = join connection room r
step r (leaves connection room) = leave connection room r
step r (leaves_all connection) = leave_all connection r

unfoldable pub run : RoomManager → List Call → RoomManager
unfolding join leave leave_all
run r [] = r
run r (c ∷ cs) = run (step r c) cs
