-- ===== src/Realtime/Rooms/Refinement.antt =====
-- The manager against a plain relation between connections and rooms.
use ts_commons.Base.{
  String, ◌≡◌, ◌≢◌, refl, sym, ap, ◌∙◌, Option, none, some, Bool, true, false, List, [], ◌∷◌,
  or_else, ite, if_pos, if_neg, inl, inr, dec_str, arith, if◌then◌else◌, Bool-cases,
}
use ts_commons.Base.JsMap.{get}
use ts_commons.Base.JsSet.{JsSet, contains}
use ts_commons.Realtime.Rooms.{
  RoomManager, new, join, leave, leave_each, leave_all, is_member, get_room_members,
  get_connection_rooms, Call, joins, leaves, leaves_all, run,
}
use ts_commons.Realtime.Rooms.Membership.{
  members, Relation, with_pair, without_pair, holds, NonEmpty, add_to_set-holds,
  remove_from_set-holds, add_to_set-NonEmpty, remove_from_set-NonEmpty,
}

-- The relation alone: who is in which room after a call.
unfoldable pub replay : Relation → Call → Relation
replay R (joins connection room) = with_pair connection room R
replay R (leaves connection room) = without_pair connection room R
replay R (leaves_all connection) = λ c x. ite (dec_str connection c) false (R c x)

unfoldable pub replay_all : Relation → List Call → Relation
unfolding replay
replay_all R [] = R
replay_all R (c ∷ cs) = replay_all (replay R c) cs

abbrev pub nobody : Relation
nobody connection room = false

-- Both maps hold the relation, and keep no empty set.
pub record Agrees (r : RoomManager) (R : Relation) : Type 0 where
  by_connection : (c x : String) → holds r.membership c x ≡ R c x
  by_room : (c x : String) → holds r.rooms x c ≡ R c x
  no_empty_room : NonEmpty r.rooms
  no_empty_membership : NonEmpty r.membership

ite_swap :
    (a b c d : String) (v w : Bool)
    → ite (dec_str a b) (ite (dec_str c d) v w) w ≡ ite (dec_str c d) (ite (dec_str a b) v w) w
ite_swap a b c d v w = elim (dec_str a b) [
  | yes p ↦ elim (dec_str c d) [
    | yes q ↦ rw (if_pos _ p, if_pos _ q, if_pos _ q, if_pos _ p) refl
    | no q ↦ rw (if_pos _ p, if_neg _ q, if_neg _ q) refl
  ]
  | no p ↦ elim (dec_str c d) [
    | yes q ↦ rw (if_neg _ p, if_pos _ q, if_neg _ p) refl
    | no q ↦ rw (if_neg _ p, if_neg _ q) refl
  ]
]

join-Agrees :
    (r : RoomManager) (R : Relation) (connection room : String)
    → Agrees r R
    → Agrees (join connection room r) (with_pair connection room R)
unfolding join
join-Agrees r R connection room a = record {
  by_connection = λ c x.
      add_to_set-holds r.membership connection room c x
      ∙ ap (λ b. ite (dec_str connection c) (ite (dec_str room x) true b) b) (a.by_connection c x);
  by_room = λ c x.
      add_to_set-holds r.rooms room connection x c
      ∙ ap (λ b. ite (dec_str room x) (ite (dec_str connection c) true b) b) (a.by_room c x)
      ∙ ite_swap room x connection c true (R c x);
  no_empty_room = add_to_set-NonEmpty r.rooms room connection a.no_empty_room;
  no_empty_membership = add_to_set-NonEmpty r.membership connection room a.no_empty_membership;
}

leave-Agrees :
    (r : RoomManager) (R : Relation) (connection room : String)
    → Agrees r R
    → Agrees (leave connection room r) (without_pair connection room R)
unfolding leave
leave-Agrees r R connection room a = record {
  by_connection = λ c x.
      remove_from_set-holds r.membership connection room c x
      ∙ ap (λ b. ite (dec_str connection c) (ite (dec_str room x) false b) b) (a.by_connection c x);
  by_room = λ c x.
      remove_from_set-holds r.rooms room connection x c
      ∙ ap (λ b. ite (dec_str room x) (ite (dec_str connection c) false b) b) (a.by_room c x)
      ∙ ite_swap room x connection c false (R c x);
  no_empty_room = remove_from_set-NonEmpty r.rooms room connection a.no_empty_room;
  no_empty_membership = remove_from_set-NonEmpty r.membership connection room a.no_empty_membership;
}

Agrees-same :
    (r : RoomManager) (R Q : Relation) → Agrees r R → ((c x : String) → R c x ≡ Q c x) → Agrees r Q
Agrees-same r R Q a h = record {
  by_connection = λ c x. a.by_connection c x ∙ h c x;
  by_room = λ c x. a.by_room c x ∙ h c x;
  no_empty_room = a.no_empty_room;
  no_empty_membership = a.no_empty_membership;
}

-- The relation without one connection in any of some rooms.
unfoldable without_all : String → List String → Relation → Relation
without_all connection [] R = R
without_all connection (room ∷ rooms) R =
    without_all connection rooms (without_pair connection room R)

leave_each-Agrees :
    (connection : String) (rooms : List String) (r : RoomManager) (R : Relation)
    → Agrees r R
    → Agrees (leave_each connection rooms r) (without_all connection rooms R)
unfolding leave_each without_all
leave_each-Agrees connection [] r R a = a
leave_each-Agrees connection (room ∷ rooms) r R a =
    leave_each-Agrees connection rooms (leave connection room r) (without_pair connection room R)
      (leave-Agrees r R connection room a)

without_all-lem :
    (connection : String) (rooms : List String) (R : Relation) (c x : String)
    → without_all connection rooms R c x
      ≡ ite (dec_str connection c) (if contains x rooms then false else R c x) (R c x)
unfolding without_all contains
without_all-lem connection [] R c x = ground arith
without_all-lem connection (room ∷ rooms) R c x =
    without_all-lem connection rooms (without_pair connection room R) c x
    ∙ elim (dec_str connection c) [
      | yes p ↦ rw (if_pos _ p, if_pos _ p, if_pos _ p) (ground arith)
      | no p ↦ rw (if_neg _ p, if_neg _ p, if_neg _ p) refl
    ]

leave_all-Agrees :
    (r : RoomManager) (R : Relation) (connection : String)
    → Agrees r R
    → Agrees (leave_all connection r) (replay R (leaves_all connection))
unfolding leave_all replay
leave_all-Agrees r R connection a =
    let rooms = members r.membership connection in
    Agrees-same (leave_all connection r) (without_all connection rooms R)
      (replay R (leaves_all connection)) (leave_each-Agrees connection rooms r R a)
      (λ c x. without_all-lem connection rooms R c x ∙ elim (dec_str connection c) [
        | yes p ↦
            rw (if_pos _ p, if_pos _ p)
              (elim (Bool-cases (contains x rooms)) [
                | inl e ↦ rw e refl
                | inr e ↦ rw e (
                    sym (a.by_connection c x)
                    ∙ ap (λ i. contains x (members r.membership i)) (sym p)
                    ∙ e)
              ])
        | no p ↦ rw (if_neg _ p, if_neg _ p) refl
      ])

run-Agrees :
    (r : RoomManager) (R : Relation) (cs : List Call)
    → Agrees r R
    → Agrees (run r cs) (replay_all R cs)
unfolding run replay_all replay
run-Agrees r R [] a = a
run-Agrees r R (joins c x ∷ cs) a =
    run-Agrees (join c x r) (with_pair c x R) cs (join-Agrees r R c x a)
run-Agrees r R (leaves c x ∷ cs) a =
    run-Agrees (leave c x r) (without_pair c x R) cs (leave-Agrees r R c x a)
run-Agrees r R (leaves_all c ∷ cs) a =
    run-Agrees (leave_all c r) (replay R (leaves_all c)) cs (leave_all-Agrees r R c a)

is_member-holds : (r : RoomManager) (c x : String) → is_member r c x ≡ holds r.rooms x c
unfolding contains
is_member-holds r c x = by_set (get x r.rooms)
  where
    by_set :
        (o : Option JsSet)
        → ◌≡◌ {A = Bool}
            (elim o [ none ↦ false | some s ↦ contains c s ])
            (contains c (or_else o []))
    by_set none = refl
    by_set (some s) = refl

-- After any calls on a new manager, who is in which room is what the calls alone make of a plain
-- relation that is empty at first: `isMember` tells it, the members of a room and the rooms of a
-- connection are the sets that it gives, and no room and no connection is kept with an empty set.
pub run_refines :
    (cs : List Call)
    → let r = run new cs in
      let R = replay_all nobody cs in
      ((c x : String)
        → (is_member r c x ≡ R c x)
          × (contains c (get_room_members r x) ≡ R c x)
          × (contains x (get_connection_rooms r c) ≡ R c x))
      × ((k : String) → (get k r.rooms ≢ some []) × (get k r.membership ≢ some []))
unfolding contains get
run_refines cs =
    let a = run-Agrees new nobody cs (record {
      by_connection = λ c x. refl;
      by_room = λ c x. refl;
      no_empty_room = λ k e. cc e;
      no_empty_membership = λ k e. cc e;
    }) in
    (
      (λ c x.
          (is_member-holds (run new cs) c x ∙ a.by_room c x, a.by_room c x, a.by_connection c x)),
      λ k. (a.no_empty_room k, a.no_empty_membership k),
    )
