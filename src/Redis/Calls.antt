-- ===== src/Redis/Calls.antt =====
-- module_redis.go: what holds of the subscribers after any calls of the module's functions.
use runtimelua.Common.{
  ℕ, ◌≡◌, inl, inr, Option, none, some, List, [], ◌∷◌, Bytes, All, ◌&◌, Option-cases,
}
use runtimelua.Lua.{LValue}
use runtimelua.Scripts.Registry.{lookup, All-lookup}
use runtimelua.Redis.Session.{Session, returned, Outer, Client, stop, M}
use runtimelua.Redis.Commands.{
  Name, exists_name, ping_name, get_name, set_name, incr_name, incrby_name, hincrby_name,
  hkeys_name, hgetall_name, hget_name, hset_name, hmset_name, publish_name, handler,
}
use runtimelua.Redis.Table.{Function, redis_functions}
use runtimelua.Redis.Safety.{handler-Ends, validates, wire}
use runtimelua.Redis.Subscriptions.{subscribe, unsubscribe, psubscribe, punsubscribe}
use runtimelua.Redis.Invariant.{
  after, IsSession, Keeps, Keeps-checked, Keeps-needs, Keeps-validate, Keeps-join, Keeps-leave,
  Ends-IsSession,
}

-- A call of a function of the module by its name, with the answers of the server at that time. A
-- name that the module does not have calls nothing.
pub data Operation : Type 0 where
  calls : Bytes → Client → List LValue → Operation

abbrev pub run : Outer → Client → List LValue → Option Function → M (Unit {0})
run o c args none s = stop (returned []) s
run o c args (some f) s = f o c args s

abbrev pub operate : Outer → Operation → M (Unit {0})
operate o (calls name c args) = run o c args (lookup name redis_functions)

-- The session after a list of calls.
abbrev pub operate_all : Outer → List Operation → Session → Session
operate_all o [] s = s
operate_all o (x ∷ xs) s = operate_all o xs (after (operate o x s))

-- The function that a call gives as its second argument.
abbrev pub Gives : (ℕ → Type 0) → Outer → Operation → Type 0
Gives P o (calls name c args) = (fn : ℕ) → o.check_function 2 args ≡ some fn → P fn

module _ (P : ℕ → Type 0) where
  -- A function keeps the session in order, if what its second argument is satisfies the predicate.
  abbrev pub KeepsCall : Function → Type 0
  KeepsCall f =
      (o : Outer) (c : Client) (args : List LValue)
      → ((fn : ℕ) → o.check_function 2 args ≡ some fn → P fn)
      → Keeps P (f o c args)

  subscribe-KeepsCall : KeepsCall subscribe
  unfolding subscribe
  subscribe-KeepsCall o c args gives = Keeps-checked P 1 _ _ (λ key e.
      Keeps-checked P 2 _ _ (λ fn given.
        Keeps-needs P key 1 _ _
          (λ some_key. Keeps-validate P _ (Keeps-join P _ _ _ key fn some_key (gives fn given)))))

  psubscribe-KeepsCall : KeepsCall psubscribe
  unfolding psubscribe
  psubscribe-KeepsCall o c args gives = Keeps-checked P 1 _ _ (λ key e.
      Keeps-checked P 2 _ _ (λ fn given.
        Keeps-needs P key 1 _ _
          (λ some_key. Keeps-validate P _ (Keeps-join P _ _ _ key fn some_key (gives fn given)))))

  unsubscribe-KeepsCall : KeepsCall unsubscribe
  unfolding unsubscribe
  unsubscribe-KeepsCall o c args gives =
      Keeps-checked P 1 _ _ (λ key e. Keeps-needs P key 1 _ _ (λ some_key. Keeps-leave P _ _ key))

  punsubscribe-KeepsCall : KeepsCall punsubscribe
  unfolding punsubscribe
  punsubscribe-KeepsCall o c args gives =
      Keeps-checked P 1 _ _ (λ key e. Keeps-needs P key 1 _ _ (λ some_key. Keeps-leave P _ _ key))

  handler-KeepsCall : (nm : Name) → KeepsCall (handler nm)
  handler-KeepsCall nm o c args gives s h =
      Ends-IsSession P s (validates nm) (wire nm) (handler nm o c args s)
        (handler-Ends nm o c args s) h

  redis_functions-KeepsCall : All (λ entry. KeepsCall entry.1) redis_functions
  unfolding redis_functions
  redis_functions-KeepsCall =
      handler-KeepsCall exists_name
      & handler-KeepsCall ping_name
      & handler-KeepsCall get_name
      & handler-KeepsCall set_name
      & handler-KeepsCall incr_name
      & handler-KeepsCall incrby_name
      & handler-KeepsCall hincrby_name
      & handler-KeepsCall hkeys_name
      & handler-KeepsCall hgetall_name
      & handler-KeepsCall hget_name
      & handler-KeepsCall hset_name
      & handler-KeepsCall hmset_name
      & handler-KeepsCall publish_name
      & subscribe-KeepsCall
      & psubscribe-KeepsCall
      & unsubscribe-KeepsCall
      & punsubscribe-KeepsCall
      & tt

  operate-IsSession : (o : Outer) (x : Operation) → Gives P o x → Keeps P (operate o x)
  operate-IsSession o (calls name c args) gives s h =
      elim (Option-cases (lookup name redis_functions)) [
        | inl e ↦ rw (e, after) h
        | inr (f, e) ↦
            rw (e, after)
              (All-lookup KeepsCall name f redis_functions redis_functions-KeepsCall e o c args
                gives s h)
      ]

  -- After any calls of functions of the module by their names, with any answers of the server, no channel or
  -- pattern is empty or stands twice; each subscriber, in the map or out of it, has a callback; and
  -- all its callbacks are functions that a call gave, if so it was before.
  pub operate_all-IsSession :
      (o : Outer) (xs : List Operation) (s : Session)
      → All (Gives P o) xs
      → IsSession P s
      → IsSession P (operate_all o xs s)
  operate_all-IsSession o [] s gives h = h
  operate_all-IsSession o (x ∷ xs) s gives h =
      operate_all-IsSession o xs (after (operate o x s)) gives.1 (operate-IsSession o x gives.0 s h)
