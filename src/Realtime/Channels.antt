-- ===== src/Realtime/Channels.antt =====
-- Which rooms a socket joins and leaves: `subscribe` and `unsubscribe` of realtime-events.gateway.ts.
use realtime_ops_platform.Prelude.{
  String, List, [], ◌∷◌, ◌≡◌, refl, Option, none, some, false, arith, All, if◌then◌else◌,
  Option-cases, Bool-cases, inl, inr,
}
use realtime_ops_platform.Runtime.Calls.{Call, Room, socket_join, socket_leave, named, inherited}
use realtime_ops_platform.Runtime.Monad.{Env, ok, ◌>>=◌}
use realtime_ops_platform.Runtime.Observe.{joined_rooms, left_rooms}
use realtime_ops_platform.Runtime.Triple.{outcome_cases}
use realtime_ops_platform.Realtime.{
  is_one_of, channels, prototype_members, room_of_channel, requested, kept, join_room, leave_room,
  subscribe_each, subscribe, unsubscribe_each, unsubscribe,
}

-- the names that have a room
abbrev pub accepted : List String → List String
accepted [] = []
accepted (name ∷ names) = kept (room_of_channel name) name (accepted names)

-- the rooms of a list of names, newest first, over those from before
abbrev pub rooms_of : List String → List Room → List Room
rooms_of [] before = before
rooms_of (name ∷ names) before = elim (room_of_channel name) [
  | none ↦ rooms_of names before
  | some room ↦ rooms_of names (room ∷ before)
]

module _ (env : Env) where
  subscribe_each_lem :
      (names subscribed : List String) (h : List Call)
      → (subscribe_each env names h).0 ≡ ok subscribed
      → (subscribed ≡ accepted names)
        × (joined_rooms (subscribe_each env names h).1 ≡ rooms_of names (joined_rooms h))
        × (left_rooms (subscribe_each env names h).1 ≡ left_rooms h)
  unfolding subscribe_each join_room ◌>>=◌
  subscribe_each_lem [] subscribed h r = (ground arith, refl, refl)
  subscribe_each_lem (name ∷ names) subscribed h r = elim (Option-cases (room_of_channel name)) [
    | inl unknown ↦ elim (outcome_cases (subscribe_each env names h).0) [
      | inl (rest, e) ↦
          let (accepts, joins, leaves) = subscribe_each_lem names rest h e in
          (ground arith, ground arith, ground arith)
      | inr (x, e) ↦ absurd (ground arith)
    ]
    | inr (room, known) ↦ elim (outcome_cases (env.answer h (socket_join room))) [
      | inl (_, joined) ↦ elim (outcome_cases (subscribe_each env names (socket_join room ∷ h)).0) [
        | inl (rest, e) ↦
            let (accepts, joins, leaves) = subscribe_each_lem names rest _ e in
            (ground arith, ground arith, ground arith)
        | inr (x, e) ↦ absurd (ground arith)
      ]
      | inr (x, refused) ↦ absurd (ground arith)
    ]
  ]

  unsubscribe_each_lem :
      (names unsubscribed : List String) (h : List Call)
      → (unsubscribe_each env names h).0 ≡ ok unsubscribed
      → (unsubscribed ≡ accepted names)
        × (left_rooms (unsubscribe_each env names h).1 ≡ rooms_of names (left_rooms h))
        × (joined_rooms (unsubscribe_each env names h).1 ≡ joined_rooms h)
  unfolding unsubscribe_each leave_room ◌>>=◌
  unsubscribe_each_lem [] unsubscribed h r = (ground arith, refl, refl)
  unsubscribe_each_lem (name ∷ names) unsubscribed h r =
      elim (Option-cases (room_of_channel name)) [
        | inl unknown ↦ elim (outcome_cases (unsubscribe_each env names h).0) [
          | inl (rest, e) ↦
              let (accepts, leaves, joins) = unsubscribe_each_lem names rest h e in
              (ground arith, ground arith, ground arith)
          | inr (x, e) ↦ absurd (ground arith)
        ]
        | inr (room, known) ↦ elim (outcome_cases (env.answer h (socket_leave room))) [
          | inl (_, left) ↦
              elim (outcome_cases (unsubscribe_each env names (socket_leave room ∷ h)).0) [
                | inl (rest, e) ↦
                    let (accepts, leaves, joins) = unsubscribe_each_lem names rest _ e in
                    (ground arith, ground arith, ground arith)
                | inr (x, e) ↦ absurd (ground arith)
              ]
          | inr (x, refused) ↦ absurd (ground arith)
        ]
      ]

  -- When they return, `subscribe` and `unsubscribe` accept the same names of the same request, in its
  -- order, and the one leaves exactly the rooms that the other joins, whatever happened between.
  pub unsubscribe_reverses :
      (names : Option (List String)) {subscribed unsubscribed : List String} (g h : List Call)
      → (subscribe env names g).0 ≡ ok subscribed
      → (unsubscribe env names h).0 ≡ ok unsubscribed
      → (unsubscribed ≡ subscribed)
        × (joined_rooms (subscribe env names g).1 ≡ rooms_of (requested names) (joined_rooms g))
        × (left_rooms (subscribe env names g).1 ≡ left_rooms g)
        × (left_rooms (unsubscribe env names h).1 ≡ rooms_of (requested names) (left_rooms h))
        × (joined_rooms (unsubscribe env names h).1 ≡ joined_rooms h)
  unfolding subscribe unsubscribe
  unsubscribe_reverses names {subscribed} {unsubscribed} g h s u =
      let (accepts, joins, stays) = subscribe_each_lem (requested names) subscribed g s in
      let (same, leaves, keeps) = unsubscribe_each_lem (requested names) unsubscribed h u in
      (cc, joins, stays, leaves, keeps)

-- the names of a list that docs/websocket-flow.md gives as channels
abbrev pub known_channels : List String → List String
known_channels [] = []
known_channels (name ∷ names) =
    let rest = known_channels names in if is_one_of name channels then name ∷ rest else rest

-- their rooms, newest first
abbrev pub named_rooms : List String → List Room → List Room
named_rooms [] before = before
named_rooms (name ∷ names) before = named_rooms names (named name ∷ before)

abbrev pub NotInherited : String → Type 0
NotInherited name = is_one_of name prototype_members ≡ false

known_channels_lem :
    (names : List String) (before : List Room)
    → All NotInherited names
    → (accepted names ≡ known_channels names)
      × (rooms_of names before ≡ named_rooms (known_channels names) before)
unfolding room_of_channel
known_channels_lem [] before _ = (refl, refl)
known_channels_lem (name ∷ names) before (n, ns) = elim (Bool-cases (is_one_of name channels)) [
  | inl known ↦
      let (accepts, rooms) = known_channels_lem names (named name ∷ before) ns in
      (ground arith, ground arith)
  | inr unknown ↦
      let (accepts, rooms) = known_channels_lem names before ns in (ground arith, ground arith)
]

-- the channels of docs/websocket-flow.md
abbrev documented_channels : List String
documented_channels = "jobs" ∷ "alerts" ∷ "incidents" ∷ "notifications" ∷ []

-- the room that a name is given: that of a channel, or what a member of `Object.prototype` is
abbrev granted_room : String → Option Room
granted_room name =
    if is_one_of name documented_channels
    then some (named name)
    else (if is_one_of name prototype_members then some (inherited name) else none)

abbrev grant : Option Room → String → List String → List String
grant none name names = names
grant (some room) name names = name ∷ names

-- the names of a list that are given a room
abbrev pub granted : List String → List String
granted [] = []
granted (name ∷ names) = grant (granted_room name) name (granted names)

abbrev add_room : Option Room → List Room → List Room
add_room none rooms = rooms
add_room (some room) rooms = room ∷ rooms

-- their rooms, newest first, over those from before
abbrev pub granted_rooms : List String → List Room → List Room
granted_rooms [] before = before
granted_rooms (name ∷ names) before = granted_rooms names (add_room (granted_room name) before)

room_of_channel_lem : (name : String) → room_of_channel name ≡ granted_room name
unfolding room_of_channel
room_of_channel_lem name = refl

granted_lem :
    (names : List String) (before : List Room)
    → (accepted names ≡ granted names) × (rooms_of names before ≡ granted_rooms names before)
granted_lem [] before = (refl, refl)
granted_lem (name ∷ names) before =
    let same = room_of_channel_lem name in
    elim (Option-cases (granted_room name)) [
      | inl unknown ↦
          let (accepts, rooms) = granted_lem names before in (ground arith, ground arith)
      | inr (room, known) ↦
          let (accepts, rooms) = granted_lem names (room ∷ before) in (ground arith, ground arith)
    ]

module _ (env : Env) where
  -- When `subscribe` returns for names that are no members of `Object.prototype`, it has accepted the
  -- four channels among them, in their order, has joined the room of the same name for each, and no
  -- other; so unknown names are ignored.
  pub subscribe_ignores_unknown :
      (names : Option (List String)) {subscribed : List String} (h : List Call)
      → All NotInherited (requested names)
      → (subscribe env names h).0 ≡ ok subscribed
      → (subscribed ≡ known_channels (requested names))
        × (joined_rooms (subscribe env names h).1
            ≡ named_rooms (known_channels (requested names)) (joined_rooms h))
  unfolding subscribe
  subscribe_ignores_unknown names {subscribed} h ns r =
      let (accepts, joins, stays) = subscribe_each_lem env (requested names) subscribed h r in
      let (known, rooms) = known_channels_lem (requested names) (joined_rooms h) ns in (cc, cc)

  -- When `subscribe` returns, for any list of names, it has accepted, in their order, the four channels
  -- among them and also the members of `Object.prototype`, and no other name; and it has joined, in that
  -- order, the room of the same name for each of the first, and what the member is for each of the others.
  pub subscribe_grants :
      (names : Option (List String)) {subscribed : List String} (h : List Call)
      → (subscribe env names h).0 ≡ ok subscribed
      → (subscribed ≡ granted (requested names))
        × (joined_rooms (subscribe env names h).1
            ≡ granted_rooms (requested names) (joined_rooms h))
  unfolding subscribe
  subscribe_grants names {subscribed} h r =
      let (accepts, joins, stays) = subscribe_each_lem env (requested names) subscribed h r in
      let (known, rooms) = granted_lem (requested names) (joined_rooms h) in (cc, cc)
