-- ===== src/Tests/Broadcasts.antt =====
-- Two connections of a user, and rooms as a set of pairs.
use reinhardt_cloud.Base.{
  ℕ, String, true, false, List, [], ◌∷◌, ◌≡◌, ◌⊎◌, refl, ap, inl, inr, arith, string_eq, pair_eq,
  ◌==◌, Bool-cases,
}
use reinhardt_cloud.Base.Map.{get}
use reinhardt_cloud.Base.Set.{has, add, discard, has-add, has-discard}
use reinhardt_cloud.Dashboard.Broadcaster.Defs.{
  RoomManager, new, Call, do_register, do_try_subscribe, do_unsubscribe, run, try_subscribe,
  remove_connection, system_room_id,
}
use reinhardt_cloud.Dashboard.Broadcaster.Tracked.{AreRooms}
use reinhardt_cloud.Dashboard.Broadcaster.Limit.{IsLimited, run-IsLimited}
use reinhardt_cloud.Dashboard.Broadcaster.Gone.{remove_connection-gone}
use reinhardt_cloud.Dashboard.Broadcaster.Answers.{Answers, try_subscribe_lem}

abbrev Pairs : Type 0
Pairs = List (String × String)

abbrev rooms : RoomManager Pairs ℕ
rooms = record {
  empty = [];
  create = λ r room. r;
  has_room = λ r room. true;
  join = λ r room c connection. add (room, c) r;
  leave = λ r room c. discard (room, c) r;
  cleanup = λ r. r;
  reaches = λ r room c. has (room, c) r;
}

joined :
    (r : Pairs) (p q : String × String)
    → has q (add p r) ≡ true
    → (has q r ≡ true) ⊎ ((p.0 ≡ q.0) × (p.1 ≡ q.1))
joined r p q h = elim (Bool-cases (p == q)) [
  | inl same ↦ let e = (pair_eq.beq_iff p q).0 same in inr (ap (λ x. x.0) e, ap (λ x. x.1) e)
  | inr other ↦ inl (ground (arith, h, other, has-add p q r))
]

left :
    (r : Pairs) (p q : String × String)
    → has q (discard p r) ≡ true
    → (has q r ≡ true) × (¬ ((p.0 ≡ q.0) × (p.1 ≡ q.1)))
left r p q h = (
  ground (arith, h, has-discard p q r),
  λ (e, f).
      let same : (p == q) ≡ true = (pair_eq.beq_iff p q).1 (λ i. (e i, f i)) in
      absurd (ground (arith, h, same, has-discard p q r)),
)

rooms-AreRooms : AreRooms rooms
unfolding has
rooms-AreRooms = record {
  empty-reaches = λ room c. refl;
  create-reaches = λ r room room' c h. h;
  join-reaches = λ r room c connection room' c' h. joined r (room, c) (room', c') h;
  no_room-reaches = λ r room c h. absurd (ground (arith, h));
  leave-reaches = λ r room c room' c' there h. left r (room, c) (room', c') h;
  cleanup-reaches = λ r room c h. h;
}

abbrev calls : List (Call rooms)
calls =
    do_register "c1" "u" 1
    ∷ do_register "c2" "u" 2
    ∷ do_try_subscribe "c1" "u" "d"
    ∷ do_unsubscribe "c1" "e"
    ∷ do_try_subscribe "c2" "u" "e"
    ∷ []

remove_connection-gone_example :
    rooms.reaches
      (remove_connection rooms (run rooms (new rooms) calls) "c1").room_manager
      system_room_id
      "c1"
    ≡ false
remove_connection-gone_example =
    remove_connection-gone rooms rooms-AreRooms calls "c1" system_room_id

new-IsLimited : IsLimited (new rooms)
unfolding get
new-IsLimited k v h = absurd (ground (arith, h))

run-IsLimited_example : IsLimited (run rooms (new rooms) calls)
run-IsLimited_example = run-IsLimited rooms (new rooms) calls new-IsLimited

try_subscribe_lem_example :
    Answers rooms
      (run rooms (new rooms) calls)
      "u"
      "f"
      (try_subscribe rooms (run rooms (new rooms) calls) "c2" "u" "f")
try_subscribe_lem_example = try_subscribe_lem rooms (run rooms (new rooms) calls) "c2" "u" "f"
