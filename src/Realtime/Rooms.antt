-- ===== src/Realtime/Rooms.antt =====
-- The rooms that a socket is in, as a set: what `subscribe` and `unsubscribe` of
-- realtime-events.gateway.ts make of it.
use realtime_ops_platform.Prelude.{
  String, List, [], ◌∷◌, ◌≡◌, Bool, false, not, ◌&&◌, ◌||◌, Option, none, some, str_eq,
  if◌then◌else◌, arith, Option-cases, inl, inr,
}
use mathlib.Core.Path.{fun_ext}
use realtime_ops_platform.Runtime.Calls.{Call, Room, socket_join, socket_leave, named, inherited}
use realtime_ops_platform.Runtime.Monad.{Env, ok, ◌>>=◌}
use realtime_ops_platform.Runtime.Triple.{outcome_cases}
use realtime_ops_platform.Realtime.{
  room_of_channel, requested, join_room, leave_room, subscribe_each, subscribe, unsubscribe_each,
  unsubscribe,
}

abbrev pub same_room : Room → Room → Bool
same_room (named a) (named b) = str_eq a b
same_room (inherited a) (inherited b) = str_eq a b
same_room _ _ = false

-- Whether the socket is in a room. Socket.IO keeps a set: to join adds the room, to leave takes it away.
abbrev pub is_in : List Call → Room → Bool
is_in [] r = false
is_in (socket_join q ∷ h) r = same_room q r || is_in h r
is_in (socket_leave q ∷ h) r = let before = is_in h r in if same_room q r then false else before
is_in (_ ∷ h) r = is_in h r

abbrev room_is : Option Room → Room → Bool
room_is none r = false
room_is (some q) r = same_room q r

-- whether one of the names has this room
abbrev pub names_room : List String → Room → Bool
names_room [] r = false
names_room (name ∷ names) r = room_is (room_of_channel name) r || names_room names r

module _ (env : Env) where
  subscribe_each-is_in :
      (names subscribed : List String) (h : List Call)
      → (subscribe_each env names h).0 ≡ ok subscribed
      → (r : Room) → is_in (subscribe_each env names h).1 r ≡ (is_in h r || names_room names r)
  unfolding subscribe_each join_room ◌>>=◌
  subscribe_each-is_in [] subscribed h e r = ground arith
  subscribe_each-is_in (name ∷ names) subscribed h e r =
      elim (Option-cases (room_of_channel name)) [
        | inl unknown ↦ elim (outcome_cases (subscribe_each env names h).0) [
          | inl (rest, f) ↦ ground (arith, subscribe_each-is_in names rest h f r)
          | inr (x, f) ↦ absurd (ground arith)
        ]
        | inr (room, known) ↦ elim (outcome_cases (env.answer h (socket_join room))) [
          | inl (_, joined) ↦
              elim (outcome_cases (subscribe_each env names (socket_join room ∷ h)).0) [
                | inl (rest, f) ↦
                    ground (arith, subscribe_each-is_in names rest (socket_join room ∷ h) f r)
                | inr (x, f) ↦ absurd (ground arith)
              ]
          | inr (x, refused) ↦ absurd (ground arith)
        ]
      ]

  unsubscribe_each-is_in :
      (names unsubscribed : List String) (h : List Call)
      → (unsubscribe_each env names h).0 ≡ ok unsubscribed
      → (r : Room)
      → is_in (unsubscribe_each env names h).1 r ≡ (is_in h r && not (names_room names r))
  unfolding unsubscribe_each leave_room ◌>>=◌
  unsubscribe_each-is_in [] unsubscribed h e r = ground arith
  unsubscribe_each-is_in (name ∷ names) unsubscribed h e r =
      elim (Option-cases (room_of_channel name)) [
        | inl unknown ↦ elim (outcome_cases (unsubscribe_each env names h).0) [
          | inl (rest, f) ↦ ground (arith, unsubscribe_each-is_in names rest h f r)
          | inr (x, f) ↦ absurd (ground arith)
        ]
        | inr (room, known) ↦ elim (outcome_cases (env.answer h (socket_leave room))) [
          | inl (_, left) ↦
              elim (outcome_cases (unsubscribe_each env names (socket_leave room ∷ h)).0) [
                | inl (rest, f) ↦
                    ground (arith, unsubscribe_each-is_in names rest (socket_leave room ∷ h) f r)
                | inr (x, f) ↦ absurd (ground arith)
              ]
          | inr (x, refused) ↦ absurd (ground arith)
        ]
      ]

  -- On the set of rooms that the socket is in, `subscribe` is the union with the rooms of the names, and
  -- `unsubscribe` the difference, when they return: the order of the names, and how often one is given,
  -- make no difference, and no other room is joined or left.
  pub subscriptions_refine :
      (names : Option (List String)) {subscribed unsubscribed : List String} (g h : List Call)
      → (subscribe env names g).0 ≡ ok subscribed
      → (unsubscribe env names h).0 ≡ ok unsubscribed
      → (is_in (subscribe env names g).1 ≡ (λ r. is_in g r || names_room (requested names) r))
        × (is_in (unsubscribe env names h).1
            ≡ (λ r. is_in h r && not (names_room (requested names) r)))
  unfolding subscribe unsubscribe
  subscriptions_refine names {subscribed} {unsubscribed} g h s u = (
    fun_ext (subscribe_each-is_in (requested names) subscribed g s),
    fun_ext (unsubscribe_each-is_in (requested names) unsubscribed h u),
  )
