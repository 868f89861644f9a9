-- ===== src/Tests/Redis.antt =====
-- Redis commands and subscriptions.
use runtimelua.Common.{
  ℕ, sym, some_inj, ◌≡◌, ◌≢◌, ◌↔◌, refl, ◌⊎◌, inl, inr, List, [], ◌∷◌, some, none, true, false,
  Bytes, bytes_eq, if◌then◌else◌, get_elem?, codes,
}
use runtimelua.Lua.{LValue, string}
use runtimelua.Scripts.Registry.{lookup}
use runtimelua.Redis.Session.{Subscriber, Session, Outer, Client, returned, stop}
use runtimelua.Redis.Commands.{incr_name, handler}
use runtimelua.Redis.Safety.{Ends, validates, wire, handler-Ends}
use runtimelua.Redis.Subscriptions.{subscribe, unsubscribe}
use runtimelua.Redis.Subscribers.{IsRequest, joined, subscribe-lookup, unsubscribe_leaves}
use runtimelua.Redis.Pools.{RedisOptions, Pools, load_pool, connect_redis, connect_all}
use runtimelua.Redis.Sharing.{IsPools, connect_shares}
use runtimelua.Redis.Invariant.{IsSession}
use runtimelua.Redis.Calls.{Operation, calls, operate_all, operate_all-IsSession}
use runtimelua.Tests.Values.{api}

abbrev outer : Outer
outer = record {
  api = api;
  check_string = λ n args. some (codes "hits");
  check_number = λ n args. some 2;
  check_table = λ n args. none;
  check_function = λ n args. some 9;
  check_any = λ n args. none;
  unmarshal = λ s. none;
  marshal = λ v. [];
}

abbrev client : Client
client = record {
  ping = inl [];
  exists = λ k. inl [];
  get = λ k. inl [];
  set = λ k v. inl [];
  incr = λ k. inr 1;
  incr_by = λ k n. inl [];
  h_incr_by = λ k f n. inl [];
  h_get_all = λ k. inl [];
  h_keys = λ k. inl [];
  h_get = λ k f. inl [];
  h_set = λ k f v. inl [];
  hm_set = λ k vs. inl [];
  publish = λ k v. inl [];
  subscribe = λ k. true;
  p_subscribe = λ k. true;
  unsubscribe = λ k. inl (codes "gone");
  p_unsubscribe = λ k. inl [];
}

abbrev offline_session : Session
offline_session = record { connected = false; pubsub = []; detached = []; sent = [] }

handler-Ends_example :
    Ends offline_session
      (validates incr_name)
      (wire incr_name)
      (handler incr_name outer client (string (codes "hits") ∷ []) offline_session)
handler-Ends_example =
    handler-Ends incr_name outer client (string (codes "hits") ∷ []) offline_session

abbrev key : Bytes
key = codes "hits"

abbrev args : List LValue
args = string key ∷ []

-- A session with a plain subscriber of the channel.
abbrev plain : Subscriber
plain = record { by_pattern = false; functions = 4 ∷ [] }

abbrev online : Session
online = record { connected = true; pubsub = (key, plain) ∷ []; detached = []; sent = [] }

request : IsRequest outer args online key 9
request = record {
  has_key = refl;
  has_function = refl;
  not_empty = λ e. absurd (cc e);
  online = refl;
}

subscribe-lookup_example :
    (s' : Session) × (subscribe outer client args online ≡ stop (returned []) s')
    × ((j : Bytes)
        → lookup j s'.pubsub ≡ (
            if bytes_eq key j
            then some (joined false 9 (lookup key online.pubsub))
            else lookup j online.pubsub))
    × (s'.detached ≡ online.detached)
subscribe-lookup_example = subscribe-lookup outer client args online key 9 request refl

unsubscribe_leaves_example :
    (s' : Session) × (unsubscribe outer client args online ≡ stop (returned []) s')
    × ((j : Bytes) → lookup j s'.pubsub ≡ (if bytes_eq key j then none else lookup j online.pubsub))
    × ((s'.detached ≡ online.detached)
        ⊎ ((sub : Subscriber) × (lookup key online.pubsub ≡ some sub)
            × (s'.detached ≡ sub ∷ online.detached)
            × ((online.connected ≡ false) ⊎ ((e : Bytes) × (client.unsubscribe key ≡ inl e)))))
unsubscribe_leaves_example = unsubscribe_leaves outer client args online key refl request.not_empty

-- The callback is the function 9 in each call.
abbrev calls_made : List Operation
calls_made =
    calls (codes "subscribe") client args
    ∷ calls (codes "psubscribe") client args
    ∷ calls (codes "incr") client args
    ∷ calls (codes "unsubscribe") client args
    ∷ calls (codes "no_such_name") client args
    ∷ []

gives_nine : (fn : ℕ) → outer.check_function 2 args ≡ some fn → fn ≡ 9
gives_nine fn e = sym (some_inj e)

abbrev fresh_session : Session
fresh_session = record { connected = true; pubsub = []; detached = []; sent = [] }

operate_all-IsSession_example :
    IsSession (λ fn. fn ≡ 9) (operate_all outer calls_made fresh_session)
operate_all-IsSession_example =
    operate_all-IsSession (λ fn. fn ≡ 9) outer calls_made fresh_session
      (gives_nine, (gives_nine, (gives_nine, (gives_nine, (gives_nine, tt))))) (tt, tt)

-- Two databases at one address, with another address between them.
abbrev local : ℕ → RedisOptions
local n = record { addr = codes "localhost:6379"; db = n }

abbrev away : RedisOptions
away = record { addr = codes "away:6379"; db = 0 }

abbrev no_pools : Pools
no_pools = record { rdbs = []; made = [] }

no_pools-IsPools : IsPools no_pools
unfolding lookup
no_pools-IsPools = record { connects = λ a q h. absurd cc }

connect_shares_example :
    let p' = connect_all (some away ∷ none ∷ []) (connect_redis (some (local 0)) no_pools).1 in
    let p'' = (connect_redis (some (local 1)) p').1 in
    (q q' : ℕ) × (used used' : RedisOptions) × ((connect_redis (some (local 0)) no_pools).0
      ≡ some q)
    × ((connect_redis (some (local 1)) p').0 ≡ some q')
    × (get_elem? p''.made q ≡ some used)
    × (get_elem? p''.made q' ≡ some used')
    × (used.addr ≡ codes "localhost:6379")
    × (used'.addr ≡ codes "localhost:6379")
    × ((q ≡ q') ↔ (codes "localhost:6379" ≡ codes "localhost:6379"))
    × ((load_pool (local 0) no_pools ≢ none) ⊎ (used ≡ local 0))
connect_shares_example =
    connect_shares no_pools (local 0) (local 1) (some away ∷ none ∷ []) no_pools-IsPools
