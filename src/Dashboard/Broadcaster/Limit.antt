-- ===== src/Dashboard/Broadcaster/Limit.antt =====
-- The number of subscriptions of a user stays within the limit.
use reinhardt_cloud.Base.{
  ◌≤◌, ◌<◌, String, Bool, Option, none, some, List, [], ◌∷◌, ◌≡◌, refl, sym, subst, leb, arith,
  length, string_eq, if_intro,
}
use reinhardt_cloud.Base.Map.{Map, get, Each, insert-Each, remove-Each}
use reinhardt_cloud.Base.Set.{has, add, discard, length-add, length-discard}
use reinhardt_cloud.Dashboard.Broadcaster.Defs.{
  max_subscriptions_per_user, RoomManager, WsBroadcaster, or_default, insert_into, keep_left,
  drop_from, drop_at, register_connection, forget_left, forget_from, forget_connection,
  remove_connection, enter, subscribe, try_with, try_subscribe, drop_subscription, unsubscribe,
  drop_connections, drop_connection, cleanup_user, Call, do_register, do_remove, do_try_subscribe,
  do_unsubscribe, do_cleanup_user, step, run,
}

abbrev pub IsWithinLimit : List String → Type 0
IsWithinLimit subs = length subs ≤ max_subscriptions_per_user

-- each user has at most so many subscriptions
abbrev pub IsLimited : {R C : Type 0} → WsBroadcaster R C → Type 0
IsLimited s = Each IsWithinLimit s.user_subscriptions

insert_into-Each :
    (k v : String) (m : Map String (List String))
    → length (or_default (get k m)) < max_subscriptions_per_user
    → Each IsWithinLimit m
    → Each IsWithinLimit (insert_into k v m)
unfolding insert_into
insert_into-Each k v m room each =
    insert-Each IsWithinLimit k (add v (or_default (get k m))) m
      (omega (arith, room, length-add v (or_default (get k m)))) each

keep_left-Each :
    (k : String) (left : List String) (m : Map String (List String))
    → IsWithinLimit left
    → Each IsWithinLimit m
    → Each IsWithinLimit (keep_left k left m)
keep_left-Each k [] m small each = remove-Each IsWithinLimit k m each
keep_left-Each k (w ∷ left) m small each = insert-Each IsWithinLimit k (w ∷ left) m small each

drop_from-Each :
    (o : Option (List String)) (k v : String) (m : Map String (List String))
    → o ≡ get k m
    → Each IsWithinLimit m
    → Each IsWithinLimit (drop_from o k v m)
drop_from-Each none k v m found each = each
drop_from-Each (some s) k v m found each =
    keep_left-Each k (discard v s) m (omega (arith, each k s (sym found), length-discard v s)) each

drop_at-Each :
    (k v : String) (m : Map String (List String))
    → Each IsWithinLimit m
    → Each IsWithinLimit (drop_at k v m)
unfolding drop_at
drop_at-Each k v m each = drop_from-Each (get k m) k v m refl each

module _ {R C : Type 0} (rooms : RoomManager R C) where
  forget_left-IsLimited :
      (uid : String) (left : List String) (s : WsBroadcaster R C)
      → IsLimited s
      → IsLimited (forget_left rooms uid left s)
  forget_left-IsLimited uid [] s h = remove-Each IsWithinLimit uid s.user_subscriptions h
  forget_left-IsLimited uid (c ∷ left) s h = h

  forget_from-IsLimited :
      (o : Option (List String)) (uid connection_id : String) (s : WsBroadcaster R C)
      → IsLimited s
      → IsLimited (forget_from rooms o uid connection_id s)
  forget_from-IsLimited none uid connection_id s h = h
  forget_from-IsLimited (some conns) uid connection_id s h =
      forget_left-IsLimited uid (discard connection_id conns) s h

  forget_connection-IsLimited :
      (o : Option String) (connection_id : String) (s : WsBroadcaster R C)
      → IsLimited s
      → IsLimited (forget_connection rooms o connection_id s)
  forget_connection-IsLimited none connection_id s h = h
  forget_connection-IsLimited (some uid) connection_id s h =
      forget_from-IsLimited (get uid s.user_connections) uid connection_id s h

  pub enter-subscriptions :
      (o : Option C) (s : WsBroadcaster R C) (connection_id room_id : String)
      → (enter rooms o s connection_id room_id).user_subscriptions ≡ s.user_subscriptions
  enter-subscriptions none s connection_id room_id = refl
  enter-subscriptions (some c) s connection_id room_id = refl

  subscribe-IsLimited :
      (s : WsBroadcaster R C) (connection_id user_id deployment_id : String)
      → length (or_default (get user_id s.user_subscriptions)) < max_subscriptions_per_user
      → IsLimited s
      → IsLimited (subscribe rooms s connection_id user_id deployment_id)
  unfolding subscribe
  subscribe-IsLimited s connection_id user_id deployment_id room h =
      subst (λ m. Each IsWithinLimit (insert_into user_id deployment_id m))
        (sym (enter-subscriptions (get connection_id s.connections) _ connection_id _))
        (insert_into-Each user_id deployment_id s.user_subscriptions room h)

  try_with-IsLimited :
      (o : Option (List String)) (s : WsBroadcaster R C)
      (connection_id user_id deployment_id : String)
      → o ≡ get user_id s.user_subscriptions
      → IsLimited s
      → IsLimited (try_with rooms o s connection_id user_id deployment_id).0
  try_with-IsLimited none s connection_id user_id deployment_id found h =
      subscribe-IsLimited s connection_id user_id deployment_id
        (subst (λ o. length (or_default o) < max_subscriptions_per_user) found (ground arith)) h
  try_with-IsLimited (some subs) s connection_id user_id deployment_id found h =
      if_intro (λ (r : WsBroadcaster R C × Bool). IsLimited r.0) (has deployment_id subs) (λ _. h)
        (λ _.
          if_intro (λ (r : WsBroadcaster R C × Bool). IsLimited r.0)
            (leb max_subscriptions_per_user (length subs)) (λ _. h)
            (λ below.
              subscribe-IsLimited s connection_id user_id deployment_id
                (subst (λ o. length (or_default o) < max_subscriptions_per_user) found
                  (ground (arith, below)))
                h))

  drop_connections-IsLimited :
      (s : WsBroadcaster R C) (ids : List String)
      → IsLimited s
      → IsLimited (drop_connections rooms s ids)
  unfolding drop_connections
  drop_connections-IsLimited s [] h = h
  drop_connections-IsLimited s (i ∷ ids) h =
      drop_connections-IsLimited (drop_connection rooms s i) ids h

  drop_subscription-Each :
      (o : Option String) (subs : Map String (List String)) (deployment_id : String)
      → Each IsWithinLimit subs
      → Each IsWithinLimit (drop_subscription rooms o subs deployment_id)
  drop_subscription-Each none subs deployment_id h = h
  drop_subscription-Each (some uid) subs deployment_id h = drop_at-Each uid deployment_id subs h

  step-IsLimited :
      (s : WsBroadcaster R C) (call : Call rooms) → IsLimited s → IsLimited (step rooms s call)
  unfolding step register_connection remove_connection try_subscribe unsubscribe cleanup_user
  step-IsLimited s (do_register connection_id user_id connection) h = h
  step-IsLimited s (do_remove connection_id) h =
      forget_connection-IsLimited (get connection_id s.connection_users) connection_id _ h
  step-IsLimited s (do_try_subscribe connection_id user_id deployment_id) h =
      try_with-IsLimited (get user_id s.user_subscriptions) s connection_id user_id deployment_id
        refl h
  step-IsLimited s (do_unsubscribe connection_id deployment_id) h =
      drop_subscription-Each (get connection_id s.connection_users) s.user_subscriptions
        deployment_id h
  step-IsLimited s (do_cleanup_user user_id) h =
      remove-Each IsWithinLimit user_id _
        (drop_connections-IsLimited s (or_default (get user_id s.user_connections)) h)

  -- From a state in which no user holds more than 100 subscriptions, whatever sequence of calls the
  -- connections make, one after the other, reaches such a state only.
  pub run-IsLimited :
      (s : WsBroadcaster R C) (calls : List (Call rooms))
      → IsLimited s
      → IsLimited (run rooms s calls)
  unfolding run
  run-IsLimited s [] h = h
  run-IsLimited s (call ∷ calls) h =
      run-IsLimited (step rooms s call) calls (step-IsLimited s call h)
