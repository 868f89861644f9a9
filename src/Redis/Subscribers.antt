-- ===== src/Redis/Subscribers.antt =====
-- The subscribers after each operation.
use runtimelua.Common.{
  ℕ, ◌≡◌, refl, ◌≢◌, ◌⊎◌, inl, inr, Bool, true, false, Option, none, some, List, [], ◌∷◌, Bytes,
  codes, arith, bytes_eq, bytes_eq_refl, if◌then◌else◌, Option-cases, Bool-cases, ap, ◌∙◌, some_inj,
  Sum-cases, sym, bytes_eq_iff,
}
use runtimelua.Lua.{LValue}
use runtimelua.Luaconv.Convert.{gstring}
use runtimelua.Scripts.Registry.{lookup, insert, delete, lookup-insert, lookup-delete}
use runtimelua.Redis.Session.{
  Subscriber, command, Session, Handled, returned, panics, Outer, Client, stop, go, M, ◌>>=◌, ◌>>◌,
  checked, needs, validate, get_client,
}
use runtimelua.Redis.Subscriptions.{
  append, join, open_subscriber, leave, close_subscriber, subscribe, unsubscribe, psubscribe,
}

-- The subscriber of a key that one more callback joins.
abbrev pub joined : Bool → ℕ → Option Subscriber → Subscriber
joined by_pattern fn none = record { by_pattern = by_pattern; functions = fn ∷ [] }
joined by_pattern fn (some sub) = append fn sub

-- The arguments that pass the checks of `subscribe` and `psubscribe`, in a session with a pool.
pub record IsRequest (o : Outer) (args : List LValue) (s : Session) (key : Bytes) (fn : ℕ)
    : Type 0 where
  pub has_key : o.check_string 1 args ≡ some key
  pub has_function : o.check_function 2 args ≡ some fn
  pub not_empty : key ≢ []
  pub online : s.connected ≡ true

if-on : {A : Type 0} (b : Bool) (x y : A) → b ≡ true → (if b then x else y) ≡ x
if-on true x y e = refl
if-on false x y e = absurd (ground (arith, e))

-- The steps of a handler that let it go on.
checked_goes :
    {A B : Type 0} (n : ℕ) (x : Option A) (a : A) (f : A → M B) (s : Session)
    → x ≡ some a
    → (checked n x >>= f) s ≡ f a s
unfolding checked ◌>>=◌
checked_goes n none a f s e = absurd (cc)
checked_goes n (some b) a f s e = ap (λ y. f y s) (some_inj e)

needs_goes :
    {B : Type 0} (x : Bytes) (n : ℕ) (msg : Bytes) (k : M B) (s : Session)
    → x ≢ []
    → (needs x n msg >> k) s ≡ k s
unfolding needs ◌>>◌ ◌>>=◌
needs_goes [] n msg k s h = absurd (h refl)
needs_goes (b ∷ bs) n msg k s h = refl

gate_goes :
    {B : Type 0} (b : Bool) (h : Handled) (k : M B) (s : Session)
    → b ≡ true
    → ((λ t. if b then go tt t else stop h t) >> k) s ≡ k s
unfolding ◌>>◌ ◌>>=◌
gate_goes true h k s e = refl
gate_goes false h k s e = absurd (ground (arith, e))

validate_goes : {B : Type 0} (k : M B) (s : Session) → s.connected ≡ true → (validate >> k) s ≡ k s
unfolding validate ◌>>◌ ◌>>=◌
validate_goes k s e = gate_goes s.connected (returned []) k s e

get_client_goes :
    {B : Type 0} (k : M B) (s : Session) → s.connected ≡ true → (get_client >> k) s ≡ k s
unfolding get_client ◌>>◌ ◌>>=◌
get_client_goes k s e = gate_goes s.connected panics k s e

module _ (o : Outer) (c : Client) (args : List LValue) (s : Session) (key : Bytes) (fn : ℕ)
    (r : IsRequest o args s key fn) where
  subscribe-eq-join :
      subscribe o c args s ≡ join false (codes "subscribe") (c.subscribe key) key fn s
  unfolding subscribe
  subscribe-eq-join =
      checked_goes 1 _ key _ s r.has_key
      ∙ checked_goes 2 _ fn _ s r.has_function
      ∙ needs_goes key 1 _ _ s r.not_empty
      ∙ validate_goes _ s r.online

  psubscribe-eq-join :
      psubscribe o c args s ≡ join true (codes "psubscribe") (c.p_subscribe key) key fn s
  unfolding psubscribe
  psubscribe-eq-join =
      checked_goes 1 _ key _ s r.has_key
      ∙ checked_goes 2 _ fn _ s r.has_function
      ∙ needs_goes key 1 _ _ s r.not_empty
      ∙ validate_goes _ s r.online

  join-lookup :
      (by_pattern : Bool) (nm : Bytes)
      → (s' : Session) × (join by_pattern nm true key fn s ≡ stop (returned []) s')
        × ((j : Bytes)
            → lookup j s'.pubsub ≡ (
                if bytes_eq key j
                then some (joined by_pattern fn (lookup key s.pubsub))
                else lookup j s.pubsub))
        × (s'.detached ≡ s.detached)
  unfolding join open_subscriber
  join-lookup by_pattern nm = elim (Option-cases (lookup key s.pubsub)) [
    | inl e ↦ (
      record s {
        sent = command nm (gstring key ∷ []) ∷ s.sent;
        pubsub = insert key (joined by_pattern fn none) s.pubsub;
      },
      rw (e, join) (get_client_goes _ s r.online),
      λ j. rw e (lookup-insert key j (joined by_pattern fn none) s.pubsub),
      refl,
    )
    | inr (sub, e) ↦ (
      record s { pubsub = insert key (append fn sub) s.pubsub },
      rw (e, join) refl,
      λ j. rw e (lookup-insert key j (append fn sub) s.pubsub),
      refl,
    )
  ]

  -- In a session with a pool whose server takes subscriptions, `subscribe` adds its callback behind
  -- those of its channel, or makes a plain subscriber of it alone. Other channels are unchanged.
  pub subscribe-lookup :
      c.subscribe key ≡ true
      → (s' : Session) × (subscribe o c args s ≡ stop (returned []) s')
        × ((j : Bytes)
            → lookup j s'.pubsub ≡ (
                if bytes_eq key j
                then some (joined false fn (lookup key s.pubsub))
                else lookup j s.pubsub))
        × (s'.detached ≡ s.detached)
  subscribe-lookup granted =
      let (s', is, found, same) = join-lookup false (codes "subscribe") in
      (
        s',
        subscribe-eq-join ∙ ap (λ g. join false (codes "subscribe") g key fn s) granted ∙ is,
        found,
        same,
      )

  -- `psubscribe` on a text that is the channel of a plain subscriber subscribes to no pattern: it
  -- sends nothing, and its callback joins the plain subscriber.
  pub psubscribe_joins :
      (sub : Subscriber)
      → lookup key s.pubsub ≡ some sub
      → sub.by_pattern ≡ false
      → (s' : Session) × (psubscribe o c args s ≡ stop (returned []) s')
        × (lookup key s'.pubsub ≡ some (append fn sub))
        × ((append fn sub).by_pattern ≡ false)
        × (s'.sent ≡ s.sent)
  unfolding join append
  psubscribe_joins sub held plain = (
    record s { pubsub = insert key (append fn sub) s.pubsub },
    psubscribe-eq-join ∙ rw (held, join) refl,
    ground (arith, lookup-insert key key (append fn sub) s.pubsub, bytes_eq_refl key),
    plain,
    refl,
  )

-- After `unsubscribe` with a channel that is not empty, the channel has no subscriber and the other
-- channels are unchanged, whatever the server answers. The subscriber was closed, or it is out of
-- the map and still runs: without a pool, or when the server answered with an error.
pub unsubscribe_leaves :
    (o : Outer) (c : Client) (args : List LValue) (s : Session) (key : Bytes)
    → o.check_string 1 args ≡ some key
    → key ≢ []
    → (s' : Session) × (unsubscribe o c args s ≡ stop (returned []) s')
      × ((j : Bytes) → lookup j s'.pubsub ≡ (if bytes_eq key j then none else lookup j s.pubsub))
      × ((s'.detached ≡ s.detached)
          ⊎ ((sub : Subscriber) × (lookup key s.pubsub ≡ some sub)
              × (s'.detached ≡ sub ∷ s.detached)
              × ((s.connected ≡ false) ⊎ ((e : Bytes) × (c.unsubscribe key ≡ inl e)))))
unfolding unsubscribe leave close_subscriber
unsubscribe_leaves o c args s key has not_empty =
    let start = checked_goes 1 _ key _ s has ∙ needs_goes key 1 _ _ s not_empty in
    let cmd = command (codes "unsubscribe") (gstring key ∷ []) in
    let others = λ (j : Bytes). lookup-delete key j s.pubsub in
    elim (Option-cases (lookup key s.pubsub)) [
      | inl e ↦ (s, start ∙ rw (e, leave) refl, absent e, inl refl)
      | inr (sub, e) ↦ elim (Bool-cases s.connected) [
        | inr off ↦ (
          record s { pubsub = delete key s.pubsub; detached = sub ∷ s.detached },
          start ∙ rw (e, leave) (rw off refl),
          others,
          inr (sub, e, refl, inl off),
        )
        | inl on ↦ elim (Sum-cases (c.unsubscribe key)) [
          | inl (x, bad) ↦ (
            record s {
              pubsub = delete key s.pubsub;
              detached = sub ∷ s.detached;
              sent = cmd ∷ s.sent;
            },
            start ∙ rw (e, leave) (if-on s.connected _ _ on ∙ rw bad refl),
            others,
            inr (sub, e, refl, inr (x, bad)),
          )
          | inr (b, good) ↦ (
            record s { pubsub = delete key s.pubsub; sent = cmd ∷ s.sent },
            start ∙ rw (e, leave) (if-on s.connected _ _ on ∙ rw good refl),
            others,
            inl refl,
          )
        ]
      ]
    ]
  where
    absent :
        lookup key s.pubsub ≡ none
        → (j : Bytes) → lookup j s.pubsub ≡ (if bytes_eq key j then none else lookup j s.pubsub)
    absent e j = elim (Bool-cases (bytes_eq key j)) [
      | inl same ↦ rw same (ap (λ k. lookup k s.pubsub) (sym ((bytes_eq_iff key j).0 same)) ∙ e)
      | inr differ ↦ rw differ refl
    ]
