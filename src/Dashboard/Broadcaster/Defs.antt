-- ===== src/Dashboard/Broadcaster/Defs.antt =====
-- The broadcaster's state and its operations.
use reinhardt_cloud.Base.{
  ℕ, String, Bool, true, false, Option, none, some, List, [], ◌∷◌, leb, length, text_append,
  string_eq, if◌then◌else◌,
}
use reinhardt_cloud.Base.Map.{Map, get, insert, remove, modify}
use reinhardt_cloud.Base.Set.{has, add, discard}

abbrev pub max_subscriptions_per_user : ℕ
max_subscriptions_per_user = 100

abbrev pub system_room_id : String
system_room_id = "system:all"

-- the room of a deployment
abbrev pub room_of : String → String
room_of deployment_id = text_append "deployment:" deployment_id

-- What the program takes from the framework's `RoomManager` and `Room`: the manager is an `R`, a
-- connection a `C`.
pub record RoomManager (R C : Type 0) : Type 0 where
  pub empty : R
  -- `get_or_create_room`, and whether `get_room` finds one
  pub create : R → String → R
  pub has_room : R → String → Bool
  -- `Room::join` and `Room::leave`, whose results are not looked at
  pub join : R → String → String → C → R
  pub leave : R → String → String → R
  -- `cleanup_empty_rooms`
  pub cleanup : R → R
  -- whether a broadcast into a room reaches a connection
  pub reaches : R → String → String → Bool

pub record WsBroadcaster (R C : Type 0) : Type 0 where
  pub room_manager : R
  -- user_id to deployment_ids
  pub user_subscriptions : Map String (List String)
  -- connection_id to connection
  pub connections : Map String C
  -- connection_id to user_id
  pub connection_users : Map String String
  -- user_id to connection_ids
  pub user_connections : Map String (List String)
  -- connection_id to the ids of the rooms of deployments
  pub connection_rooms : Map String (List String)

-- `unwrap_or_default`
abbrev pub or_default : Option (List String) → List String
or_default none = []
or_default (some s) = s

-- `entry(k).or_default().insert(v)`
unfoldable pub insert_into : String → String → Map String (List String) → Map String (List String)
insert_into k v m = insert k (add v (or_default (get k m))) m

-- what is left of a set replaces it, and the key goes if nothing is left
abbrev pub keep_left : String → List String → Map String (List String) → Map String (List String)
keep_left k [] m = remove k m
keep_left k (w ∷ left) m = insert k (w ∷ left) m

abbrev pub drop_from :
    Option (List String) → String → String → Map String (List String) → Map String (List String)
drop_from none k v m = m
drop_from (some s) k v m = keep_left k (discard v s) m

unfoldable pub drop_at : String → String → Map String (List String) → Map String (List String)
drop_at k v m = drop_from (get k m) k v m

module _ {R C : Type 0} (rooms : RoomManager R C) where
  abbrev pub new : WsBroadcaster R C
  new = record {
    room_manager = rooms.empty;
    user_subscriptions = [];
    connections = [];
    connection_users = [];
    user_connections = [];
    connection_rooms = [];
  }

  unfoldable pub register_connection : WsBroadcaster R C → String → String → C → WsBroadcaster R C
  unfolding insert_into
  register_connection s connection_id user_id connection = record s {
    connections = insert connection_id connection s.connections;
    room_manager =
        rooms.join (rooms.create s.room_manager system_room_id) system_room_id connection_id
          connection;
    connection_users = insert connection_id user_id s.connection_users;
    user_connections = insert_into user_id connection_id s.user_connections;
  }

  -- `get_room` and `leave`
  abbrev pub leave_room : R → String → String → R
  leave_room r room_id connection_id =
      if rooms.has_room r room_id then rooms.leave r room_id connection_id else r

  unfoldable pub leave_all : R → List String → String → R
  leave_all r [] connection_id = r
  leave_all r (room_id ∷ room_ids) connection_id =
      leave_all (leave_room r room_id connection_id) room_ids connection_id

  -- the rooms of deployments, then the system room
  unfoldable pub leave_tracked : R → Map String (List String) → String → R
  unfolding leave_all
  leave_tracked r connection_rooms connection_id =
      leave_room (leave_all r (or_default (get connection_id connection_rooms)) connection_id)
        system_room_id connection_id

  -- the user's connections that are left, and no subscriptions if there are none
  abbrev pub forget_left : String → List String → WsBroadcaster R C → WsBroadcaster R C
  forget_left uid [] s = record s {
    user_connections = remove uid s.user_connections;
    user_subscriptions = remove uid s.user_subscriptions;
  }
  forget_left uid (c ∷ left) s = record s {
    user_connections = insert uid (c ∷ left) s.user_connections;
  }

  abbrev pub forget_from :
      Option (List String) → String → String → WsBroadcaster R C → WsBroadcaster R C
  forget_from none uid connection_id s = s
  forget_from (some conns) uid connection_id s = forget_left uid (discard connection_id conns) s

  abbrev pub forget_connection : Option String → String → WsBroadcaster R C → WsBroadcaster R C
  forget_connection none connection_id s = s
  forget_connection (some uid) connection_id s =
      forget_from (get uid s.user_connections) uid connection_id s

  -- `cleanup_empty_rooms`
  abbrev pub tidy : WsBroadcaster R C → WsBroadcaster R C
  tidy s = record s { room_manager = rooms.cleanup s.room_manager }

  unfoldable pub remove_connection : WsBroadcaster R C → String → WsBroadcaster R C
  unfolding leave_tracked
  remove_connection s connection_id = tidy (
      forget_connection (get connection_id s.connection_users) connection_id (record s {
        connections = remove connection_id s.connections;
        connection_users = remove connection_id s.connection_users;
        connection_rooms = remove connection_id s.connection_rooms;
        room_manager = leave_tracked s.room_manager s.connection_rooms connection_id;
      }))

  -- a connection that is stored joins the room
  abbrev pub enter : Option C → WsBroadcaster R C → String → String → WsBroadcaster R C
  enter none s connection_id room_id = s
  enter (some connection) s connection_id room_id = record s {
    room_manager = rooms.join s.room_manager room_id connection_id connection;
    connection_rooms = insert_into connection_id room_id s.connection_rooms;
  }

  unfoldable pub subscribe : WsBroadcaster R C → String → String → String → WsBroadcaster R C
  unfolding insert_into
  subscribe s connection_id user_id deployment_id =
      let room_id = room_of deployment_id in
      let entered =
        enter (get connection_id s.connections)
          (record s { room_manager = rooms.create s.room_manager room_id }) connection_id room_id in
      record entered {
        user_subscriptions = insert_into user_id deployment_id entered.user_subscriptions;
      }

  abbrev pub try_with :
      Option (List String) → WsBroadcaster R C → String → String → String → WsBroadcaster R C × Bool
  try_with none s connection_id user_id deployment_id =
      (subscribe s connection_id user_id deployment_id, true)
  try_with (some user_subs) s connection_id user_id deployment_id =
      if has deployment_id user_subs
      then (s, true)
      else if leb max_subscriptions_per_user (length user_subs)
      then (s, false)
      else (subscribe s connection_id user_id deployment_id, true)

  unfoldable pub try_subscribe :
      WsBroadcaster R C → String → String → String → WsBroadcaster R C × Bool
  unfolding subscribe
  try_subscribe s connection_id user_id deployment_id =
      try_with (get user_id s.user_subscriptions) s connection_id user_id deployment_id

  abbrev pub drop_subscription :
      Option String → Map String (List String) → String → Map String (List String)
  drop_subscription none subs deployment_id = subs
  drop_subscription (some uid) subs deployment_id = drop_at uid deployment_id subs

  unfoldable pub unsubscribe : WsBroadcaster R C → String → String → WsBroadcaster R C
  unfolding drop_at
  unsubscribe s connection_id deployment_id =
      let room_id = room_of deployment_id in
      tidy (record s {
        room_manager = leave_room s.room_manager room_id connection_id;
        connection_rooms = modify connection_id (discard room_id) s.connection_rooms;
        user_subscriptions =
            drop_subscription (get connection_id s.connection_users) s.user_subscriptions
              deployment_id;
      })

  abbrev pub is_subscribed : WsBroadcaster R C → String → String → Bool
  is_subscribed s user_id deployment_id =
      has deployment_id (or_default (get user_id s.user_subscriptions))

  abbrev pub connection_count : WsBroadcaster R C → ℕ
  connection_count s = length s.user_connections

  -- one turn of the loop of `cleanup_user`
  abbrev pub drop_connection : WsBroadcaster R C → String → WsBroadcaster R C
  drop_connection s conn_id = record s {
    connections = remove conn_id s.connections;
    room_manager = leave_tracked s.room_manager s.connection_rooms conn_id;
    connection_rooms = remove conn_id s.connection_rooms;
    connection_users = remove conn_id s.connection_users;
  }

  unfoldable pub drop_connections : WsBroadcaster R C → List String → WsBroadcaster R C
  unfolding leave_tracked
  drop_connections s [] = s
  drop_connections s (conn_id ∷ conn_ids) = drop_connections (drop_connection s conn_id) conn_ids

  unfoldable pub cleanup_user : WsBroadcaster R C → String → WsBroadcaster R C
  unfolding drop_connections
  cleanup_user s user_id =
      let dropped = drop_connections s (or_default (get user_id s.user_connections)) in
      tidy (record dropped {
        user_connections = remove user_id dropped.user_connections;
        user_subscriptions = remove user_id dropped.user_subscriptions;
      })

  -- what connections ask of the broadcaster
  pub data Call : Type 0 where
    do_register : String → String → C → Call
    do_remove : String → Call
    do_try_subscribe : String → String → String → Call
    do_unsubscribe : String → String → Call
    do_cleanup_user : String → Call

  unfoldable pub step : WsBroadcaster R C → Call → WsBroadcaster R C
  unfolding register_connection remove_connection try_subscribe unsubscribe cleanup_user
  step s (do_register connection_id user_id connection) =
      register_connection s connection_id user_id connection
  step s (do_remove connection_id) = remove_connection s connection_id
  step s (do_try_subscribe connection_id user_id deployment_id) =
      (try_subscribe s connection_id user_id deployment_id).0
  step s (do_unsubscribe connection_id deployment_id) = unsubscribe s connection_id deployment_id
  step s (do_cleanup_user user_id) = cleanup_user s user_id

  unfoldable pub run : WsBroadcaster R C → List Call → WsBroadcaster R C
  unfolding step
  run s [] = s
  run s (call ∷ calls) = run (step s call) calls
