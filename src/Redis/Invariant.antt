-- ===== src/Redis/Invariant.antt =====
-- module_redis.go: when a session is in order, and the parts of the handlers keep it so.
use runtimelua.Common.{
  ℕ, ◌≡◌, ◌≢◌, refl, sym, ap, subst, ◌∙◌, inl, inr, ◌⊎◌, Bool, true, false, Option, none, some,
  List, [], ◌∷◌, ◌++◌, Bytes, bytes_eq, bytes_eq_iff, if◌then◌else◌, arith, All, All-append,
  Bool-cases, Option-cases,
}
use runtimelua.Scripts.Registry.{lookup, insert, delete, lookup-insert, lookup-delete}
use runtimelua.Redis.Session.{
  Subscriber, Session, Handled, returned, panics, Out, stop, go, M, ◌>>=◌, ◌>>◌, checked, needs,
  validate, get_client,
}
use runtimelua.Redis.Safety.{Ends, by_type, by_arg, offline, crash, asked}
use runtimelua.Redis.Subscriptions.{append, join, open_subscriber, leave, close_subscriber}

-- The session in which a part of a handler ends.
abbrev pub after : {A : Type 0} → Out A → Session
after (stop h s) = s
after (go a s) = s

module _ (P : ℕ → Type 0) where
  -- A subscriber has a callback, and all its callbacks satisfy the predicate.
  abbrev pub IsSubscriber : Subscriber → Type 0
  IsSubscriber sub = (sub.functions ≢ []) × All P sub.functions

  -- No channel or pattern is empty, and none stands twice.
  abbrev pub IsPubsub : List (Bytes × Subscriber) → Type 0
  IsPubsub [] = Unit {0}
  IsPubsub ((k, sub) ∷ m) = (k ≢ []) × IsSubscriber sub × (lookup k m ≡ none) × IsPubsub m

  abbrev pub IsSession : Session → Type 0
  IsSession s = IsPubsub s.pubsub × All IsSubscriber s.detached

  IsPubsub-lookup :
      (k : Bytes) (sub : Subscriber) (m : List (Bytes × Subscriber))
      → IsPubsub m
      → lookup k m ≡ some sub
      → IsSubscriber sub
  unfolding lookup
  IsPubsub-lookup k sub [] h e = absurd cc
  IsPubsub-lookup k sub ((j, w) ∷ m) (full, fine, absent, rest) e =
      elim (Bool-cases (bytes_eq j k)) [
        | inl same ↦ let is : w ≡ sub = ground (arith, e, same) in subst IsSubscriber is fine
        | inr differs ↦ IsPubsub-lookup k sub m rest (ground (arith, e, differs))
      ]

  IsPubsub-insert :
      (k : Bytes) (sub : Subscriber) (m : List (Bytes × Subscriber))
      → k ≢ []
      → IsSubscriber sub
      → IsPubsub m
      → IsPubsub (insert k sub m)
  unfolding insert
  IsPubsub-insert k sub [] some_key good h = (some_key, good, unfold lookup in refl, tt)
  IsPubsub-insert k sub ((j, w) ∷ m) some_key good (full, fine, absent, rest) =
      elim (Bool-cases (bytes_eq j k)) [
        | inl same ↦
            rw same (
              some_key,
              good,
              ap (λ i. lookup i m) (sym ((bytes_eq_iff j k).0 same)) ∙ absent,
              rest,
            )
        | inr differs ↦ rw differs (
          full,
          fine,
          ground
              (arith, lookup-insert k j sub m, bytes_eq_iff k j, bytes_eq_iff j k, differs, absent),
          IsPubsub-insert k sub m some_key good rest,
        )
      ]

  IsPubsub-delete : (k : Bytes) (m : List (Bytes × Subscriber)) → IsPubsub m → IsPubsub (delete k m)
  unfolding delete
  IsPubsub-delete k [] h = tt
  IsPubsub-delete k ((j, w) ∷ m) (full, fine, absent, rest) = elim (Bool-cases (bytes_eq j k)) [
    | inl same ↦ rw same (IsPubsub-delete k m rest)
    | inr differs ↦
        rw differs
          (full, fine, ground (arith, lookup-delete k j m, absent), IsPubsub-delete k m rest)
  ]

  -- A part of a handler that keeps the session in order.
  abbrev pub Keeps : {A : Type 0} → M A → Type 0
  Keeps m = (s : Session) → IsSession s → IsSession (after (m s))

  pub Keeps-checked :
      {A B : Type 0} (n : ℕ) (x : Option A) (f : A → M B)
      → ((a : A) → x ≡ some a → Keeps (f a))
      → Keeps (checked n x >>= f)
  unfolding checked ◌>>=◌
  Keeps-checked n none f k s h = h
  Keeps-checked n (some a) f k s h = k a refl s h

  pub Keeps-needs :
      {B : Type 0} (x : Bytes) (n : ℕ) (msg : Bytes) (m : M B)
      → (x ≢ [] → Keeps m)
      → Keeps (needs x n msg >> m)
  unfolding needs ◌>>◌ ◌>>=◌
  Keeps-needs [] n msg m k s h = h
  Keeps-needs (b ∷ bs) n msg m k s h = k (λ e. absurd (cc e)) s h

  Keeps-gate :
      {B : Type 0} (b : Bool) (x : Handled) (m : M B) (s : Session)
      → Keeps m
      → IsSession s
      → IsSession (after (((λ t. if b then go tt t else stop x t) >> m) s))
  unfolding ◌>>◌ ◌>>=◌
  Keeps-gate true x m s k h = k s h
  Keeps-gate false x m s k h = h

  pub Keeps-validate : {B : Type 0} (m : M B) → Keeps m → Keeps (validate >> m)
  unfolding validate ◌>>◌ ◌>>=◌
  Keeps-validate m k s h = Keeps-gate s.connected (returned []) m s k h

  Keeps-get_client : {B : Type 0} (m : M B) → Keeps m → Keeps (get_client >> m)
  unfolding get_client ◌>>◌ ◌>>=◌
  Keeps-get_client m k s h = Keeps-gate s.connected panics m s k h

  Keeps-open_subscriber :
      (by_pattern : Bool) (nm : Bytes) (granted : Bool) (key : Bytes) (fn : ℕ)
      → key ≢ []
      → P fn
      → Keeps (open_subscriber by_pattern nm granted key fn)
  unfolding open_subscriber
  Keeps-open_subscriber by_pattern nm true key fn some_key p s h = (
    IsPubsub-insert key (record { by_pattern = by_pattern; functions = fn ∷ [] }) s.pubsub some_key
        (λ e. absurd (cc e), (p, tt)) h.0,
    h.1,
  )
  Keeps-open_subscriber by_pattern nm false key fn some_key p s h = h

  append_one : (fns : List ℕ) (fn : ℕ) → fns ++ (fn ∷ []) ≢ []
  append_one [] fn e = absurd (cc e)
  append_one (f ∷ fns) fn e = absurd (cc e)

  append-IsSubscriber :
      (fn : ℕ) (sub : Subscriber) → P fn → IsSubscriber sub → IsSubscriber (append fn sub)
  unfolding append
  append-IsSubscriber fn sub p h =
      (append_one sub.functions fn, All-append P sub.functions (fn ∷ []) h.1 (p, tt))

  pub Keeps-join :
      (by_pattern : Bool) (nm : Bytes) (granted : Bool) (key : Bytes) (fn : ℕ)
      → key ≢ []
      → P fn
      → Keeps (join by_pattern nm granted key fn)
  unfolding join
  Keeps-join by_pattern nm granted key fn some_key p s h =
      elim (Option-cases (lookup key s.pubsub)) [
        | inl e ↦
            rw (e, after)
              (Keeps-get_client (open_subscriber by_pattern nm granted key fn)
                (Keeps-open_subscriber by_pattern nm granted key fn some_key p) s h)
        | inr (sub, e) ↦
            rw (e, after)
              (
                IsPubsub-insert key (append fn sub) s.pubsub some_key
                    (append-IsSubscriber fn sub p (IsPubsub-lookup key sub s.pubsub h.0 e)) h.0,
                h.1,
              )
      ]

  ends_in_order :
      (b : Bool) (x y : Handled) (s s' : Session)
      → IsSession s
      → IsSession s'
      → IsSession (after {A = Unit {0}} (if b then stop x s else stop y s'))
  ends_in_order true x y s s' h h' = h
  ends_in_order false x y s s' h h' = h'

  Keeps-close_subscriber :
      (nm : Bytes) (reply : Bytes ⊎ Bool) (key : Bytes) (sub : Subscriber)
      → IsSubscriber sub
      → Keeps (close_subscriber nm reply key sub)
  unfolding close_subscriber
  Keeps-close_subscriber nm (inl e) key sub good s h =
      ends_in_order s.connected (returned []) (returned []) _ _ (h.0, (good, h.1))
        (h.0, (good, h.1))
  Keeps-close_subscriber nm (inr b) key sub good s h =
      ends_in_order s.connected (returned []) (returned []) _ _ h (h.0, (good, h.1))

  pub Keeps-leave : (nm : Bytes) (reply : Bytes ⊎ Bool) (key : Bytes) → Keeps (leave nm reply key)
  unfolding leave
  Keeps-leave nm reply key s h = elim (Option-cases (lookup key s.pubsub)) [
    | inl e ↦ rw (e, after) h
    | inr (sub, e) ↦
        rw (e, after)
          (Keeps-close_subscriber nm reply key sub (IsPubsub-lookup key sub s.pubsub h.0 e)
            (record s { pubsub = delete key s.pubsub }) (IsPubsub-delete key s.pubsub h.0, h.1))
  ]

  pub Ends-IsSession :
      (s : Session) (v : Bool) (nm : Bytes) (r : Out (Unit {0}))
      → Ends s v nm r
      → IsSession s
      → IsSession (after r)
  Ends-IsSession s v nm (stop x s') (by_type n e same) h = subst IsSession (sym same) h
  Ends-IsSession s v nm (stop x s') (by_arg n msg e same) h = subst IsSession (sym same) h
  Ends-IsSession s v nm (stop x s') (offline d off e same) h = subst IsSession (sym same) h
  Ends-IsSession s v nm (stop x s') (crash d off e same) h = subst IsSession (sym same) h
  Ends-IsSession s v nm (stop x s') (asked vs on same) h = subst IsSession (sym same) h
  Ends-IsSession s v nm (go a s') e h = absurd e
