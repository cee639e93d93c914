-- ===== src/Dashboard/Broadcaster/Gone.antt =====
-- A connection that was removed receives nothing.
use reinhardt_cloud.Base.{
  String, Option, none, some, List, [], ◌∷◌, false, ◌≡◌, refl, sym, subst, if_intro, leb, length,
  Bool, string_eq, Bool-cases, inl, inr, arith,
}
use reinhardt_cloud.Base.Map.{Map, get}
use reinhardt_cloud.Base.Set.{has, discard}
use reinhardt_cloud.Dashboard.Broadcaster.Defs.{
  room_of, max_subscriptions_per_user, system_room_id, RoomManager, WsBroadcaster, or_default, new,
  leave_tracked, register_connection, forget_left, forget_from, forget_connection,
  remove_connection, enter, subscribe, try_with, try_subscribe, unsubscribe, drop_connection,
  drop_connections, cleanup_user, Call, do_register, do_remove, do_try_subscribe, do_unsubscribe,
  do_cleanup_user, step, run,
}
use reinhardt_cloud.Dashboard.Broadcaster.Tracked.{
  AreRooms, Tracked, Tracked-less, leave_tracked-Gone, leave_tracked-Tracked, join_system-Tracked,
  join-Tracked, leave_room-Tracked,
}

module _ {R C : Type 0} (rooms : RoomManager R C) (law : AreRooms rooms) where
  abbrev pub IsTracked : WsBroadcaster R C → Type 0
  IsTracked s = Tracked rooms law s.room_manager s.connection_rooms

  -- what is forgotten of a user is not about rooms
  forget_left-IsTracked :
      (uid : String) (left : List String) (s : WsBroadcaster R C)
      → IsTracked s
      → IsTracked (forget_left rooms uid left s)
  forget_left-IsTracked uid [] s h = h
  forget_left-IsTracked uid (c ∷ left) s h = h

  forget_from-IsTracked :
      (o : Option (List String)) (uid c : String) (s : WsBroadcaster R C)
      → IsTracked s
      → IsTracked (forget_from rooms o uid c s)
  forget_from-IsTracked none uid c s h = h
  forget_from-IsTracked (some conns) uid c s h = forget_left-IsTracked uid (discard c conns) s h

  forget_connection-IsTracked :
      (o : Option String) (c : String) (s : WsBroadcaster R C)
      → IsTracked s
      → IsTracked (forget_connection rooms o c s)
  forget_connection-IsTracked none c s h = h
  forget_connection-IsTracked (some uid) c s h =
      forget_from-IsTracked (get uid s.user_connections) uid c s h

  tidy-Tracked :
      (r : R) (m : Map String (List String))
      → Tracked rooms law r m
      → Tracked rooms law (rooms.cleanup r) m
  tidy-Tracked r m = Tracked-less rooms law r (rooms.cleanup r) m (law.cleanup-reaches r)

  create-Tracked :
      (r : R) (room : String) (m : Map String (List String))
      → Tracked rooms law r m
      → Tracked rooms law (rooms.create r room) m
  create-Tracked r room m =
      Tracked-less rooms law r (rooms.create r room) m (law.create-reaches r room)

  enter-IsTracked :
      (o : Option C) (s : WsBroadcaster R C) (c room : String)
      → IsTracked s
      → IsTracked (enter rooms o s c room)
  enter-IsTracked none s c room h = h
  enter-IsTracked (some connection) s c room h =
      join-Tracked rooms law s.room_manager room c connection s.connection_rooms h

  subscribe-IsTracked :
      (s : WsBroadcaster R C) (c user_id deployment_id : String)
      → IsTracked s
      → IsTracked (subscribe rooms s c user_id deployment_id)
  unfolding subscribe
  subscribe-IsTracked s c user_id deployment_id h =
      enter-IsTracked (get c s.connections)
        (record s { room_manager = rooms.create s.room_manager (room_of deployment_id) }) c
        (room_of deployment_id)
        (create-Tracked s.room_manager (room_of deployment_id) s.connection_rooms h)

  try_with-IsTracked :
      (o : Option (List String)) (s : WsBroadcaster R C) (c user_id deployment_id : String)
      → IsTracked s
      → IsTracked (try_with rooms o s c user_id deployment_id).0
  try_with-IsTracked none s c user_id deployment_id h =
      subscribe-IsTracked s c user_id deployment_id h
  try_with-IsTracked (some subs) s c user_id deployment_id h =
      if_intro (λ (r : WsBroadcaster R C × Bool). IsTracked r.0) (has deployment_id subs) (λ _. h)
        (λ _.
          if_intro (λ (r : WsBroadcaster R C × Bool). IsTracked r.0)
            (leb max_subscriptions_per_user (length subs)) (λ _. h)
            (λ _. subscribe-IsTracked s c user_id deployment_id h))

  drop_connections-IsTracked :
      (s : WsBroadcaster R C) (ids : List String)
      → IsTracked s
      → IsTracked (drop_connections rooms s ids)
  unfolding drop_connections
  drop_connections-IsTracked s [] h = h
  drop_connections-IsTracked s (i ∷ ids) h =
      drop_connections-IsTracked (drop_connection rooms s i) ids
        (leave_tracked-Tracked rooms law s.room_manager s.connection_rooms i h)

  step-IsTracked :
      (s : WsBroadcaster R C) (call : Call rooms) → IsTracked s → IsTracked (step rooms s call)
  unfolding step register_connection remove_connection try_subscribe unsubscribe cleanup_user
  step-IsTracked s (do_register c user_id connection) h =
      join_system-Tracked rooms law (rooms.create s.room_manager system_room_id) c connection
        s.connection_rooms (create-Tracked s.room_manager system_room_id s.connection_rooms h)
  step-IsTracked s (do_remove c) h = tidy-Tracked _ _ (
      forget_connection-IsTracked (get c s.connection_users) c (drop_connection rooms s c)
        (leave_tracked-Tracked rooms law s.room_manager s.connection_rooms c h))
  step-IsTracked s (do_try_subscribe c user_id deployment_id) h =
      try_with-IsTracked (get user_id s.user_subscriptions) s c user_id deployment_id h
  step-IsTracked s (do_unsubscribe c deployment_id) h =
      tidy-Tracked _ _
        (leave_room-Tracked rooms law s.room_manager (room_of deployment_id) c s.connection_rooms h)
  step-IsTracked s (do_cleanup_user user_id) h =
      tidy-Tracked _ _
        (drop_connections-IsTracked s (or_default (get user_id s.user_connections)) h)

  run-IsTracked :
      (s : WsBroadcaster R C) (calls : List (Call rooms))
      → IsTracked s
      → IsTracked (run rooms s calls)
  unfolding run
  run-IsTracked s [] h = h
  run-IsTracked s (call ∷ calls) h =
      run-IsTracked (step rooms s call) calls (step-IsTracked s call h)

  new-IsTracked : IsTracked (new rooms)
  new-IsTracked room c h = absurd (ground (arith, h, law.empty-reaches room c))

  forget_left-rooms :
      (uid : String) (left : List String) (s : WsBroadcaster R C)
      → (forget_left rooms uid left s).room_manager ≡ s.room_manager
  forget_left-rooms uid [] s = refl
  forget_left-rooms uid (c ∷ left) s = refl

  forget_from-rooms :
      (o : Option (List String)) (uid c : String) (s : WsBroadcaster R C)
      → (forget_from rooms o uid c s).room_manager ≡ s.room_manager
  forget_from-rooms none uid c s = refl
  forget_from-rooms (some conns) uid c s = forget_left-rooms uid (discard c conns) s

  forget_connection-rooms :
      (o : Option String) (c : String) (s : WsBroadcaster R C)
      → (forget_connection rooms o c s).room_manager ≡ s.room_manager
  forget_connection-rooms none c s = refl
  forget_connection-rooms (some uid) c s = forget_from-rooms (get uid s.user_connections) uid c s

  cleanup-Gone :
      (r : R) (c room : String)
      → rooms.reaches r room c ≡ false
      → rooms.reaches (rooms.cleanup r) room c ≡ false
  cleanup-Gone r c room h = elim (Bool-cases (rooms.reaches (rooms.cleanup r) room c)) [
    | inl there ↦ absurd (ground (arith, h, law.cleanup-reaches r room c there))
    | inr gone ↦ gone
  ]

  remove_connection-Gone :
      (s : WsBroadcaster R C) (c room : String)
      → IsTracked s
      → rooms.reaches (remove_connection rooms s c).room_manager room c ≡ false
  unfolding remove_connection
  remove_connection-Gone s c room h =
      subst (λ r. rooms.reaches (rooms.cleanup r) room c ≡ false)
        (sym (forget_connection-rooms (get c s.connection_users) c (drop_connection rooms s c)))
        (cleanup-Gone (leave_tracked rooms s.room_manager s.connection_rooms c) c room
          (leave_tracked-Gone rooms law s.room_manager s.connection_rooms c room h))

  -- A connection that is removed is in no room any more, neither the system room nor that of a
  -- deployment, after whatever sequence of calls it is removed: no broadcast reaches it.
  pub remove_connection-gone :
      (calls : List (Call rooms)) (c room : String)
      → rooms.reaches (remove_connection rooms (run rooms (new rooms) calls) c).room_manager room c
        ≡ false
  remove_connection-gone calls c room =
      remove_connection-Gone (run rooms (new rooms) calls) c room
        (run-IsTracked (new rooms) calls new-IsTracked)
