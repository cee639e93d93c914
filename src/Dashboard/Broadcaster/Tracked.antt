-- ===== src/Dashboard/Broadcaster/Tracked.antt =====
-- Whatever room a connection is in, the broadcaster knows of it.
use reinhardt_cloud.Base.{
  String, Bool, true, false, ◌&&◌, ◌||◌, not, Option, none, some, List, [], ◌∷◌, ◌≡◌, ◌≢◌, ◌⊎◌,
  refl, sym, ap, ◌∙◌, subst, inl, inr, arith, string_eq, ◌==◌, eq_iff, Bool-cases, if_intro,
  if◌then◌else◌,
}
use mathlib.Core.Option
use reinhardt_cloud.Base.Map.{Map, get, remove, modify, get-insert, get-remove, get-modify}
use reinhardt_cloud.Base.Set.{has, add, discard, has-add, has-discard}
use reinhardt_cloud.Dashboard.Broadcaster.Defs.{
  system_room_id, RoomManager, or_default, insert_into, leave_room, leave_all, leave_tracked,
}

-- what the rooms of the framework are relied on for: who is in a room joined it and did not leave it
pub record AreRooms {R C : Type 0} (rooms : RoomManager R C) : Type 0 where
  pub empty-reaches : (room c : String) → rooms.reaches rooms.empty room c ≡ false
  pub create-reaches :
      (r : R) (room room' c : String)
      → rooms.reaches (rooms.create r room) room' c ≡ true
      → rooms.reaches r room' c ≡ true
  pub join-reaches :
      (r : R) (room c : String) (connection : C) (room' c' : String)
      → rooms.reaches (rooms.join r room c connection) room' c' ≡ true
      → (rooms.reaches r room' c' ≡ true) ⊎ ((room ≡ room') × (c ≡ c'))
  pub no_room-reaches :
      (r : R) (room c : String) → rooms.has_room r room ≡ false → rooms.reaches r room c ≡ false
  pub leave-reaches :
      (r : R) (room c room' c' : String)
      → rooms.has_room r room ≡ true
      → rooms.reaches (rooms.leave r room c) room' c' ≡ true
      → (rooms.reaches r room' c' ≡ true) × (¬ ((room ≡ room') × (c ≡ c')))
  pub cleanup-reaches :
      (r : R) (room c : String)
      → rooms.reaches (rooms.cleanup r) room c ≡ true
      → rooms.reaches r room c ≡ true

-- what is in the set at a key
abbrev pub at_key : String → Map String (List String) → List String
at_key k m = or_default (get k m)

or_default-insert :
    (b : Bool) (s : List String) (o : Option (List String)) (v : String)
    → has v (or_default (if b then some s else o)) ≡ (if b then has v s else has v (or_default o))
or_default-insert true s o v = refl
or_default-insert false s o v = refl

or_default-remove :
    (b : Bool) (o : Option (List String)) (v : String)
    → has v (or_default (if b then none else o)) ≡ (if b then false else has v (or_default o))
unfolding has
or_default-remove true o v = refl
or_default-remove false o v = refl

or_default-modify :
    (b : Bool) (o : Option (List String)) (w v : String)
    → has v (or_default (if b then Option.map (discard w) o else o))
      ≡ (if b then has v (discard w (or_default o)) else has v (or_default o))
unfolding has discard
or_default-modify true none w v = refl
or_default-modify true (some s) w v = refl
or_default-modify false o w v = refl

pub at_key-insert_into :
    (k v k' v' : String) (m : Map String (List String))
    → has v' (at_key k' (insert_into k v m)) ≡ (((k == k') && (v == v')) || has v' (at_key k' m))
unfolding insert_into
at_key-insert_into k v k' v' m =
    let found = ap (λ o. has v' (or_default o)) (get-insert k k' (add v (at_key k m)) m) in
    let cases = or_default-insert (k == k') (add v (at_key k m)) (get k' m) v' in
    let same = ap {A = String} (λ j. has v' (at_key j m)) {x = k} {y = k'} in
    ground (arith, found, cases, has-add v v' (at_key k m), eq_iff k k', same)

at_key-remove :
    (k k' v' : String) (m : Map String (List String))
    → has v' (at_key k' (remove k m)) ≡ (not (k == k') && has v' (at_key k' m))
at_key-remove k k' v' m = ground (
  arith,
  ap (λ o. has v' (or_default o)) (get-remove k k' m),
  or_default-remove (k == k') (get k' m) v',
)

at_key-modify :
    (k v k' v' : String) (m : Map String (List String))
    → has v' (at_key k' (modify k (discard v) m))
      ≡ (not ((k == k') && (v == v')) && has v' (at_key k' m))
at_key-modify k v k' v' m = ground (
  arith,
  ap (λ o. has v' (or_default o)) (get-modify k k' (discard v) m),
  or_default-modify (k == k') (get k' m) v v',
  has-discard v v' (at_key k' m),
)

module _ {R C : Type 0} (rooms : RoomManager R C) (law : AreRooms rooms) where
  -- a room that a connection is in is the system room, or stands in the set of the connection
  abbrev pub Tracked : R → Map String (List String) → Type 0
  Tracked r m =
      (room c : String)
      → rooms.reaches r room c ≡ true
      → (room ≡ system_room_id) ⊎ (has room (at_key c m) ≡ true)

  pub leave_room-reaches :
      (r : R) (room c room' c' : String)
      → rooms.reaches (leave_room rooms r room c) room' c' ≡ true
      → (rooms.reaches r room' c' ≡ true) × (¬ ((room ≡ room') × (c ≡ c')))
  leave_room-reaches r room c room' c' =
      if_intro
        (λ x.
          rooms.reaches x room' c' ≡ true
          → (rooms.reaches r room' c' ≡ true) × (¬ ((room ≡ room') × (c ≡ c'))))
        (rooms.has_room r room) (λ there. law.leave-reaches r room c room' c' there)
        (λ gone h. (
          h,
          λ (p, q).
              let before : rooms.reaches r room c ≡ true =
                ap (rooms.reaches r room) q ∙ ap (λ x. rooms.reaches r x c') p ∙ h in
              absurd (ground (arith, before, law.no_room-reaches r room c gone)),
        ))

  leave_all-reaches :
      (r : R) (ids : List String) (c room c' : String)
      → rooms.reaches (leave_all rooms r ids c) room c' ≡ true
      → (rooms.reaches r room c' ≡ true) × (c ≡ c' → has room ids ≡ false)
  unfolding leave_all has
  leave_all-reaches r [] c room c' h = (h, λ _. refl)
  leave_all-reaches r (i ∷ ids) c room c' h =
      let (here, rest) = leave_all-reaches (leave_room rooms r i c) ids c room c' h in
      let (before, apart) = leave_room-reaches r i c room c' here in
      (before, λ same. ground (arith, rest same, eq_iff i room, λ (e : i ≡ room). apart (e, same)))

  pub leave_tracked-reaches :
      (r : R) (m : Map String (List String)) (c room c' : String)
      → rooms.reaches (leave_tracked rooms r m c) room c' ≡ true
      → (rooms.reaches r room c' ≡ true)
        × (c ≡ c' → (has room (at_key c m) ≡ false) × (room ≢ system_room_id))
  unfolding leave_tracked
  leave_tracked-reaches r m c room c' h =
      let (inside, apart) =
        leave_room-reaches (leave_all rooms r (at_key c m) c) system_room_id c room c' h in
      let (before, untracked) = leave_all-reaches r (at_key c m) c room c' inside in
      (before, λ same. (untracked same, λ e. apart (sym e, same)))

  -- a connection that leaves what it is known to be in is in no room
  pub leave_tracked-Gone :
      (r : R) (m : Map String (List String)) (c room : String)
      → Tracked r m
      → rooms.reaches (leave_tracked rooms r m c) room c ≡ false
  leave_tracked-Gone r m c room tracked =
      elim (Bool-cases (rooms.reaches (leave_tracked rooms r m c) room c)) [
        | inl h ↦
            let (before, gone) = leave_tracked-reaches r m c room c h in
            elim (tracked room c before) [
              | inl e ↦ absurd ((gone refl).1 e)
              | inr there ↦ absurd (ground (arith, there, (gone refl).0))
            ]
        | inr h ↦ h
      ]

  pub leave_tracked-Tracked :
      (r : R) (m : Map String (List String)) (c : String)
      → Tracked r m
      → Tracked (leave_tracked rooms r m c) (remove c m)
  leave_tracked-Tracked r m c tracked room c' h =
      let (before, gone) = leave_tracked-reaches r m c room c' h in
      elim (tracked room c' before) [
        | inl e ↦ inl e
        | inr there ↦
            let kept : c ≡ c' → has room (at_key c' m) ≡ false =
              λ same. subst (λ j. has room (at_key j m) ≡ false) same (gone same).0 in
            inr (ground (arith, there, at_key-remove c c' room m, eq_iff c c', kept))
      ]

  -- fewer rooms are tracked as well
  pub Tracked-less :
      (r r' : R) (m : Map String (List String))
      → ((room c : String) → rooms.reaches r' room c ≡ true → rooms.reaches r room c ≡ true)
      → Tracked r m
      → Tracked r' m
  Tracked-less r r' m less tracked room c h = tracked room c (less room c h)

  pub join_system-Tracked :
      (r : R) (c : String) (connection : C) (m : Map String (List String))
      → Tracked r m
      → Tracked (rooms.join r system_room_id c connection) m
  join_system-Tracked r c connection m tracked room c' h =
      elim (law.join-reaches r system_room_id c connection room c' h) [
        | inl before ↦ tracked room c' before
        | inr joined ↦ inl (sym joined.0)
      ]

  pub join-Tracked :
      (r : R) (room c : String) (connection : C) (m : Map String (List String))
      → Tracked r m
      → Tracked (rooms.join r room c connection) (insert_into c room m)
  join-Tracked r room c connection m tracked room' c' h =
      elim (law.join-reaches r room c connection room' c' h) [
        | inl before ↦ elim (tracked room' c' before) [
          | inl e ↦ inl e
          | inr there ↦ inr (ground (arith, there, at_key-insert_into c room c' room' m))
        ]
        | inr joined ↦ inr (
            ground
              (arith, at_key-insert_into c room c' room' m, eq_iff c c', eq_iff room room', joined))
      ]

  pub leave_room-Tracked :
      (r : R) (room c : String) (m : Map String (List String))
      → Tracked r m
      → Tracked (leave_room rooms r room c) (modify c (discard room) m)
  leave_room-Tracked r room c m tracked room' c' h =
      let (before, apart) = leave_room-reaches r room c room' c' h in
      elim (tracked room' c' before) [
        | inl e ↦ inl e
        | inr there ↦ inr (
            ground (
              arith,
              there,
              at_key-modify c room c' room' m,
              eq_iff c c',
              eq_iff room room',
              λ (p : room ≡ room') (q : c ≡ c'). apart (p, q),
            ))
      ]
