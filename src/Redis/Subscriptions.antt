-- ===== src/Redis/Subscriptions.antt =====
-- module_redis.go: the subscribers of a module, by their channel or pattern, and what their
-- goroutines send.
use runtimelua.Common.{
  ℕ, Bool, true, false, ◌⊎◌, inl, inr, Option, none, some, List, [], ◌∷◌, ◌++◌, Bytes, codes,
  if◌then◌else◌,
}
use runtimelua.Lua.{LValue}
use runtimelua.Luaconv.Convert.{gstring}
use runtimelua.Event.State.{event_state_initialize}
use runtimelua.Event.Object.{pub_sub, Event}
use runtimelua.Runtime.World.{World, send}
use runtimelua.Scripts.Registry.{lookup, insert, delete}
use runtimelua.Redis.Session.{
  Subscriber, command, returned, Outer, Client, stop, M, ◌>>=◌, ◌>>◌, checked, needs, validate,
  get_client,
}

unfoldable pub append : ℕ → Subscriber → Subscriber
append fn sub = record sub { functions = sub.functions ++ (fn ∷ []) }

-- `Subscribe` or `PSubscribe` of the client, which may give nil, and the new subscriber.
unfoldable pub open_subscriber : Bool → Bytes → Bool → Bytes → ℕ → M (Unit {0})
open_subscriber by_pattern nm granted key fn s =
    let asked = record s { sent = command nm (gstring key ∷ []) ∷ s.sent } in
    let made = record asked {
      pubsub = insert key (record { by_pattern = by_pattern; functions = fn ∷ [] }) s.pubsub;
    } in
    stop (returned []) (if granted then made else asked)

-- `if sub, ok := m.pubsub[key]; ok { … } else { … }`.
unfoldable pub join : Bool → Bytes → Bool → Bytes → ℕ → M (Unit {0})
unfolding append open_subscriber
join by_pattern nm granted key fn s = elim (lookup key s.pubsub) [
  | some sub ↦ stop (returned []) (record s { pubsub = insert key (append fn sub) s.pubsub })
  | none ↦ (get_client >> open_subscriber by_pattern nm granted key fn) s
]

-- What comes behind `delete`: a subscriber that is not closed stays as it is, out of the map.
unfoldable pub close_subscriber : Bytes → Bytes ⊎ Bool → Bytes → Subscriber → M (Unit {0})
close_subscriber nm reply key sub s =
    let kept = record s { detached = sub ∷ s.detached } in
    let cmd = command nm (gstring key ∷ []) in
    if s.connected
    then elim reply [
      | inl e ↦ stop (returned []) (record kept { sent = cmd ∷ s.sent })
      | inr b ↦ stop (returned []) (record s { sent = cmd ∷ s.sent })
    ]
    else stop (returned []) kept

unfoldable pub leave : Bytes → Bytes ⊎ Bool → Bytes → M (Unit {0})
unfolding close_subscriber
leave nm reply key s = elim (lookup key s.pubsub) [
  | none ↦ stop (returned []) s
  | some sub ↦ close_subscriber nm reply key sub (record s { pubsub = delete key s.pubsub })
]

module _ (o : Outer) (c : Client) (args : List LValue) where
  unfoldable pub subscribe : M (Unit {0})
  unfolding join
  subscribe = do
    channel ← checked 1 (o.check_string 1 args)
    fn ← checked 2 (o.check_function 2 args)
    needs channel 1 (codes "expects channel")
    validate
    join false (codes "subscribe") (c.subscribe channel) channel fn

  unfoldable pub unsubscribe : M (Unit {0})
  unfolding leave
  unsubscribe = do
    channel ← checked 1 (o.check_string 1 args)
    needs channel 1 (codes "expects channel")
    leave (codes "unsubscribe") (c.unsubscribe channel) channel

  unfoldable pub psubscribe : M (Unit {0})
  unfolding join
  psubscribe = do
    pattern_key ← checked 1 (o.check_string 1 args)
    fn ← checked 2 (o.check_function 2 args)
    needs pattern_key 1 (codes "expects pattern")
    validate
    join true (codes "psubscribe") (c.p_subscribe pattern_key) pattern_key fn

  unfoldable pub punsubscribe : M (Unit {0})
  unfolding leave
  punsubscribe = do
    pattern_key ← checked 1 (o.check_string 1 args)
    needs pattern_key 1 (codes "expects pattern")
    leave (codes "punsubscribe") (c.p_unsubscribe pattern_key) pattern_key

-- The event for one callback and one message.
unfoldable pub message_event : LValue → ℕ → Event
message_event v fn =
    pub_sub
      (record { base = record { value = event_state_initialize }; func = fn; arguments = v ∷ [] })

-- `for _, fn := range s.functions { … }` of `Startup`; `none` is a send that blocks.
unfoldable pub deliver : LValue → List ℕ → World → Option World
unfolding message_event
deliver v [] w = some w
deliver v (fn ∷ fns) w = elim (send (message_event v fn) w) [
  | none ↦ none
  | some w' ↦ deliver v fns w'
]
