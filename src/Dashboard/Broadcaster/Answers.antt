-- ===== src/Dashboard/Broadcaster/Answers.antt =====
-- What the answer of `try_subscribe` tells.
use reinhardt_cloud.Base.{
  String, Bool, true, false, ◌&&◌, ◌||◌, eq_iff, Option, none, some, List, ◌≡◌, refl, sym, ap, ◌∙◌,
  leb, length, arith, string_eq, ◌==◌, ==_refl, if_intro,
}
use reinhardt_cloud.Base.Map.{get}
use reinhardt_cloud.Base.Set.{has}
use reinhardt_cloud.Dashboard.Broadcaster.Defs.{
  max_subscriptions_per_user, RoomManager, WsBroadcaster, or_default, insert_into, subscribe,
  try_with, try_subscribe, is_subscribed,
}
use reinhardt_cloud.Dashboard.Broadcaster.Tracked.{at_key-insert_into}
use reinhardt_cloud.Dashboard.Broadcaster.Limit.{enter-subscriptions}

module _ {R C : Type 0} (rooms : RoomManager R C) where
  subscribe-subscriptions :
      (s : WsBroadcaster R C) (c user_id deployment_id : String)
      → (subscribe rooms s c user_id deployment_id).user_subscriptions
        ≡ insert_into user_id deployment_id s.user_subscriptions
  unfolding subscribe
  subscribe-subscriptions s c user_id deployment_id =
      ap (insert_into user_id deployment_id) (enter-subscriptions rooms (get c s.connections) _ c _)

  -- whether a user is subscribed after one subscription
  subscribe-is_subscribed :
      (s : WsBroadcaster R C) (c user_id deployment_id user : String) (deployment : String)
      → is_subscribed rooms (subscribe rooms s c user_id deployment_id) user deployment ≡ (
          ((user_id == user) && (deployment_id == deployment))
          || is_subscribed rooms s user deployment)
  subscribe-is_subscribed s c user_id deployment_id user deployment =
      ap (λ m. has deployment (or_default (get user m)))
        (subscribe-subscriptions s c user_id deployment_id)
      ∙ at_key-insert_into user_id deployment_id user deployment s.user_subscriptions

  -- the answer, and who is subscribed to what then
  abbrev pub Answers : WsBroadcaster R C → String → String → WsBroadcaster R C × Bool → Type 0
  Answers s user_id deployment_id r =
      (r.1 ≡ is_subscribed rooms r.0 user_id deployment_id)
      × ((user deployment : String)
          → is_subscribed rooms r.0 user deployment ≡ (
              ((user_id == user) && (deployment_id == deployment) && r.1)
              || is_subscribed rooms s user deployment))

  subscribe-Answers :
      (s : WsBroadcaster R C) (c user_id deployment_id : String)
      → Answers s user_id deployment_id (subscribe rooms s c user_id deployment_id, true)
  subscribe-Answers s c user_id deployment_id =
      let after = subscribe-is_subscribed s c user_id deployment_id in
      (
        ground (arith, after user_id deployment_id, ==_refl user_id, ==_refl deployment_id),
        λ user deployment. ground (arith, after user deployment),
      )

  same-Answers :
      (s : WsBroadcaster R C) (user_id deployment_id : String) (b : Bool)
      → b ≡ is_subscribed rooms s user_id deployment_id
      → Answers s user_id deployment_id (s, b)
  same-Answers s user_id deployment_id b h = (
    h,
    λ user deployment.
        let same : user_id ≡ user
            → deployment_id ≡ deployment
            → is_subscribed rooms s user_id deployment_id ≡ is_subscribed rooms s user deployment =
          λ p q. λ i. is_subscribed rooms s (p i) (q i) in
        ground (arith, h, same, eq_iff user_id user, eq_iff deployment_id deployment),
  )

  try_with-Answers :
      (o : Option (List String)) (s : WsBroadcaster R C) (c user_id deployment_id : String)
      → o ≡ get user_id s.user_subscriptions
      → Answers s user_id deployment_id (try_with rooms o s c user_id deployment_id)
  try_with-Answers none s c user_id deployment_id found =
      subscribe-Answers s c user_id deployment_id
  try_with-Answers (some subs) s c user_id deployment_id found =
      let now : has deployment_id subs ≡ is_subscribed rooms s user_id deployment_id =
        ap (λ o. has deployment_id (or_default o)) found in
      if_intro (Answers s user_id deployment_id) (has deployment_id subs)
        (λ there. same-Answers s user_id deployment_id true (sym there ∙ now))
        (λ absent.
          if_intro (Answers s user_id deployment_id) (leb max_subscriptions_per_user (length subs))
            (λ _. same-Answers s user_id deployment_id false (sym absent ∙ now))
            (λ _. subscribe-Answers s c user_id deployment_id))

  -- The answer of `try_subscribe` is whether the user is subscribed to the deployment afterwards, and
  -- no other subscription of that user or of another one changes.
  pub try_subscribe_lem :
      (s : WsBroadcaster R C) (c user_id deployment_id : String)
      → Answers s user_id deployment_id (try_subscribe rooms s c user_id deployment_id)
  unfolding try_subscribe
  try_subscribe_lem s c user_id deployment_id =
      try_with-Answers (get user_id s.user_subscriptions) s c user_id deployment_id refl
