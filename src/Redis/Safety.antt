-- ===== src/Redis/Safety.antt =====
-- How the handlers of the redis module end, and what they send.
use runtimelua.Common.{
  ℕ, zero, suc, ◌≡◌, refl, ◌⊎◌, inl, inr, Bool, true, false, Option, none, some, List, [], ◌∷◌,
  Bytes, codes, if◌then◌else◌, arith,
}
use runtimelua.Lua.{LValue}
use runtimelua.Luaconv.Convert.{GoValue}
use runtimelua.Redis.Session.{
  command, Session, Handled, returned, arg_error, type_error, panics, Outer, Client, Out, stop, go,
  M, ◌>>=◌, ◌>>◌, checked, needs, validate, get_client, request, answered,
}
use runtimelua.Redis.Commands.{
  Name, exists_name, ping_name, get_name, set_name, incr_name, incrby_name, hincrby_name,
  hkeys_name, hgetall_name, hget_name, hset_name, hmset_name, publish_name, handler, pick,
}

-- The commands that call `validate`.
abbrev pub validates : Name → Bool
validates incr_name = false
validates incrby_name = false
validates hincrby_name = false
validates hmset_name = false
validates _ = true

-- The command of redis that a handler sends.
abbrev pub wire : Name → Bytes
wire exists_name = codes "exists"
wire ping_name = codes "ping"
wire get_name = codes "get"
wire set_name = codes "set"
wire incr_name = codes "incr"
wire incrby_name = codes "incrby"
wire hincrby_name = codes "hincrby"
wire hkeys_name = codes "hkeys"
wire hgetall_name = codes "hgetall"
wire hget_name = codes "hget"
wire hset_name = codes "hset"
wire hmset_name = codes "hmset"
wire publish_name = codes "publish"

-- The five ways in which a handler ends, from a session `s`; `v` says that it validates,
-- and `nm` is the command it sends.
pub data Ending (s : Session) (v : Bool) (nm : Bytes) (h : Handled) (s' : Session) : Type 0 where
  by_type : (n : ℕ) → h ≡ type_error n → s' ≡ s → Ending s v nm h s'
  by_arg : (n : ℕ) (msg : Bytes) → h ≡ arg_error n msg → s' ≡ s → Ending s v nm h s'
  offline : v ≡ true → s.connected ≡ false → h ≡ returned [] → s' ≡ s → Ending s v nm h s'
  crash : v ≡ false → s.connected ≡ false → h ≡ panics → s' ≡ s → Ending s v nm h s'
  asked :
      (vs : List GoValue)
      → s.connected ≡ true
      → s' ≡ record s { sent = command nm vs ∷ s.sent }
      → Ending s v nm h s'

abbrev pub Ends : Session → Bool → Bytes → Out (Unit {0}) → Type 0
Ends s v nm (stop h s') = Ending s v nm h s'
Ends s v nm (go u s') = ⊥

-- The same once the command is sent.
abbrev Asked : Session → Out (Unit {0}) → Type 0
Asked s (stop h s') = s' ≡ s
Asked s (go u s') = ⊥

module _ (s : Session) (v : Bool) (nm : Bytes) where
  Ends-checked :
      {A : Type 0} (n : ℕ) (r : Option A) (f : A → M (Unit {0}))
      → ((a : A) → Ends s v nm (f a s))
      → Ends s v nm ((checked n r >>= f) s)
  unfolding ◌>>=◌ checked
  Ends-checked n none f h = by_type n refl refl
  Ends-checked n (some a) f h = h a

  Ends-needs :
      (x : Bytes) (n : ℕ) (msg : Bytes) (k : M (Unit {0}))
      → Ends s v nm (k s)
      → Ends s v nm ((needs x n msg >> k) s)
  unfolding ◌>>=◌ ◌>>◌ needs
  Ends-needs [] n msg k h = by_arg n msg refl refl
  Ends-needs (b ∷ bs) n msg k h = h

  Ends-request :
      {A : Type 0} (vs : List GoValue) (r : Bytes ⊎ A) (f : A → M (Unit {0}))
      → s.connected ≡ true
      → ((a : A) (t : Session) → Asked t (f a t))
      → Ends s v nm ((request (command nm vs) r >>= f) s)
  unfolding ◌>>=◌ request answered
  Ends-request vs (inl e) f on h = asked vs on refl
  Ends-request vs (inr a) f on h = after (f a (record s { sent = command nm vs ∷ s.sent })) (h a _)
    where
      after :
          (out : Out (Unit {0}))
          → Asked (record s { sent = command nm vs ∷ s.sent }) out
          → Ends s v nm out
      after (stop x s') e = asked vs on e
      after (go u s') e = absurd e

-- A part that goes on if a test holds, and ends the handler otherwise.
Ends-gate :
    (b : Bool) (s : Session) (v : Bool) (nm : Bytes) (h : Handled) (k : M (Unit {0}))
    → (b ≡ true → Ends s v nm (k s))
    → (b ≡ false → Ending s v nm h s)
    → Ends s v nm (((λ t. if b then go tt t else stop h t) >> k) s)
unfolding ◌>>=◌ ◌>>◌
Ends-gate true s v nm h k on off = on refl
Ends-gate false s v nm h k on off = off refl

Ends-validate :
    (s : Session) (nm : Bytes) (k : M (Unit {0}))
    → (s.connected ≡ true → Ends s true nm (k s))
    → Ends s true nm ((validate >> k) s)
unfolding validate ◌>>=◌ ◌>>◌
Ends-validate s nm k h =
    Ends-gate s.connected s true nm (returned []) k h (λ e. offline refl e refl refl)

-- Without `validate`, the nil pool is dereferenced.
Ends-get_client :
    (s : Session) (nm : Bytes) (k : M (Unit {0}))
    → (s.connected ≡ true → Ends s false nm (k s))
    → Ends s false nm ((get_client >> k) s)
unfolding get_client ◌>>=◌ ◌>>◌
Ends-get_client s nm k h = Ends-gate s.connected s false nm panics k h (λ e. crash refl e refl refl)

connected_client :
    (s : Session) (nm : Bytes) (k : M (Unit {0}))
    → s.connected ≡ true
    → Ends s true nm (k s)
    → Ends s true nm ((get_client >> k) s)
unfolding get_client ◌>>=◌ ◌>>◌
connected_client s nm k e h =
    Ends-gate s.connected s true nm panics k (λ _. h) (λ f. absurd (ground (arith, e, f)))

-- The end of a handler that validates: the check, the client and the request.
Ends-served :
    {A : Type 0} (s : Session) (nm : Bytes) (vs : List GoValue) (r : Bytes ⊎ A)
    (f : A → M (Unit {0}))
    → ((a : A) (t : Session) → Asked t (f a t))
    → Ends s true nm ((validate >> (get_client >> (request (command nm vs) r >>= f))) s)
Ends-served s nm vs r f h =
    Ends-validate s nm _ (λ e. connected_client s nm _ e (Ends-request s true nm vs r f e h))

-- The same of one that does not.
Ends-unchecked :
    {A : Type 0} (s : Session) (nm : Bytes) (vs : List GoValue) (r : Bytes ⊎ A)
    (f : A → M (Unit {0}))
    → ((a : A) (t : Session) → Asked t (f a t))
    → Ends s false nm ((get_client >> (request (command nm vs) r >>= f)) s)
Ends-unchecked s nm vs r f h = Ends-get_client s nm _ (λ e. Ends-request s false nm vs r f e h)

Asked-pick : (n : ℕ) (s : Session) → Asked s (pick n s)
Asked-pick zero s = refl
Asked-pick (suc zero) s = refl
Asked-pick (suc (suc n)) s = refl

-- Every handler of one command, on every argument and every reply, ends in one of five ways. A check
-- of an argument fails, and nothing is sent or changed. The module has no pool, and the handler
-- returns no value if it validates and panics if it does not (`incr`, `incrby`, `hincrby`, `hmset`).
-- Or the module has a pool, and the handler has sent exactly one command, the one it is named for.
pub handler-Ends :
    (n : Name) (o : Outer) (c : Client) (args : List LValue) (s : Session)
    → Ends s (validates n) (wire n) (handler n o c args s)
unfolding handler
handler-Ends exists_name o c args s =
    Ends-checked s true _ 1 _ _
      (λ key. Ends-needs s true _ key 1 _ _ (Ends-served s _ _ _ _ (Asked-pick)))
handler-Ends ping_name o c args s = Ends-served s _ _ _ _ (λ _ _. refl)
handler-Ends get_name o c args s =
    Ends-checked s true _ 1 _ _
      (λ key. Ends-needs s true _ key 1 _ _ (Ends-served s _ _ _ _ (λ _ _. refl)))
handler-Ends set_name o c args s = Ends-checked s true _ 1 _ _ (λ key.
    Ends-checked s true _ 2 _ _
      (λ any. Ends-needs s true _ key 1 _ _ (Ends-served s _ _ _ _ (λ _ _. refl))))
handler-Ends incr_name o c args s =
    Ends-checked s false _ 1 _ _
      (λ key. Ends-needs s false _ key 1 _ _ (Ends-unchecked s _ _ _ _ (λ _ _. refl)))
handler-Ends incrby_name o c args s = Ends-checked s false _ 1 _ _ (λ key.
    Ends-needs s false _ key 1 _ _
      (Ends-checked s false _ 2 _ _ (λ n. Ends-unchecked s _ _ _ _ (λ _ _. refl))))
handler-Ends hincrby_name o c args s = Ends-checked s false _ 1 _ _ (λ key.
    Ends-needs s false _ key 1 _ _ (
      Ends-checked s false _ 2 _ _ (λ field.
        Ends-needs s false _ field 2 _ _
          (Ends-checked s false _ 3 _ _ (λ n. Ends-unchecked s _ _ _ _ (λ _ _. refl))))))
handler-Ends hkeys_name o c args s =
    Ends-checked s true _ 1 _ _
      (λ key. Ends-needs s true _ key 1 _ _ (Ends-served s _ _ _ _ (λ _ _. refl)))
handler-Ends hgetall_name o c args s =
    Ends-checked s true _ 1 _ _
      (λ key. Ends-needs s true _ key 1 _ _ (Ends-served s _ _ _ _ (λ _ _. refl)))
handler-Ends hget_name o c args s = Ends-checked s true _ 1 _ _ (λ key.
    Ends-checked s true _ 2 _ _ (λ field.
      Ends-needs s true _ key 1 _ _
        (Ends-needs s true _ field 2 _ _ (Ends-served s _ _ _ _ (λ _ _. refl)))))
handler-Ends hset_name o c args s = Ends-checked s true _ 1 _ _ (λ key.
    Ends-checked s true _ 2 _ _ (λ field. Ends-checked s true _ 3 _ _ (λ any.
      Ends-needs s true _ key 1 _ _
        (Ends-needs s true _ field 2 _ _ (Ends-served s _ _ _ _ (λ _ _. refl))))))
handler-Ends hmset_name o c args s = Ends-checked s false _ 1 _ _ (λ key.
    Ends-checked s false _ 2 _ _
      (λ t. Ends-needs s false _ key 1 _ _ (Ends-unchecked s _ _ _ _ (λ _ _. refl))))
handler-Ends publish_name o c args s = Ends-checked s true _ 1 _ _ (λ key.
    Ends-needs s true _ key 1 _ _
      (Ends-checked s true _ 2 _ _ (λ any. Ends-served s _ _ _ _ (λ _ _. refl))))
