-- ===== src/Redis/Sharing.antt =====
-- Which connections of `connect_redis` (module_redis.go) share a pool.
use runtimelua.Common.{
  ℕ, ◌≡◌, ◌≢◌, ◌↔◌, ◌⊎◌, subst, refl, sym, ap, ◌∙◌, Option, none, some, some_inj, List, [], ◌∷◌,
  ◌++◌, Bytes, bytes_eq, bytes_eq_iff, bytes_eq_refl, arith, length, get_elem?,
  get_elem?-append_length, get_elem?-append_left, Option-cases, Bool-cases, inl, inr,
}
use runtimelua.Scripts.Registry.{lookup, insert, lookup-insert}
use runtimelua.Redis.Pools.{RedisOptions, Pools, load_pool, store_pool, connect_redis, connect_all}

-- The pool of an address is there, and its clients connect to this address.
pub record IsPools (p : Pools) : Type 0 where
  pub connects :
      (a : Bytes) (q : ℕ)
      → lookup a p.rdbs ≡ some q
      → (opt : RedisOptions) × (get_elem? p.made q ≡ some opt) × (opt.addr ≡ a)

-- The pools of the addresses stay, and so do the options of all pools.
record Keeps (p p' : Pools) : Type 0 where
  pools : (a : Bytes) (q : ℕ) → lookup a p.rdbs ≡ some q → lookup a p'.rdbs ≡ some q
  options :
      (q : ℕ) (opt : RedisOptions) → get_elem? p.made q ≡ some opt → get_elem? p'.made q ≡ some opt

Keeps-refl : (p : Pools) → Keeps p p
Keeps-refl p = record { pools = λ a q h. h; options = λ q opt h. h }

Keeps-trans : {p p' p'' : Pools} → Keeps p p' → Keeps p' p'' → Keeps p p''
Keeps-trans f g = record {
  pools = λ a q h. g.pools a q (f.pools a q h);
  options = λ q opt h. g.options q opt (f.options q opt h);
}

-- What is known of a table with one more entry.
lookup-inserted :
    (k j : Bytes) (v w : ℕ) (m : List (Bytes × ℕ))
    → lookup j (insert k v m) ≡ some w
    → ((k ≡ j) × (v ≡ w)) ⊎ (lookup j m ≡ some w)
lookup-inserted k j v w m h = elim (Bool-cases (bytes_eq k j)) [
  | inl same ↦
      inl ((bytes_eq_iff k j).0 same, some_inj (ground (arith, h, lookup-insert k j v m, same)))
  | inr differs ↦ inr (ground (arith, h, lookup-insert k j v m, differs))
]

store_pool-IsPools : (opt : RedisOptions) (p : Pools) → IsPools p → IsPools (store_pool opt p)
unfolding store_pool
store_pool-IsPools opt p h = record {
  connects = λ a q found. elim (lookup-inserted opt.addr a (length p.made) q p.rdbs found) [
    | inl (same, at) ↦ (
      opt,
      ap (get_elem? (p.made ++ (opt ∷ []))) (sym at) ∙ get_elem?-append_length p.made opt,
      same,
    )
    | inr old ↦
        let (o, at, of) = h.connects a q old in
        (o, get_elem?-append_left p.made (opt ∷ []) q o at, of)
  ];
}

store_pool-Keeps :
    (opt : RedisOptions) (p : Pools) → load_pool opt p ≡ none → Keeps p (store_pool opt p)
unfolding store_pool load_pool
store_pool-Keeps opt p new = record {
  pools = λ a q h. elim (Bool-cases (bytes_eq opt.addr a)) [
    | inl same ↦
        let e = (bytes_eq_iff opt.addr a).0 same in
        let known = ap (λ b. lookup b p.rdbs) e in absurd (let c = sym new ∙ known ∙ h in cc)
    | inr differs ↦ ground (arith, h, lookup-insert opt.addr a (length p.made) p.rdbs, differs)
  ];
  options = λ q o h. get_elem?-append_left p.made (opt ∷ []) q o h;
}

-- A connection with options gives the pool of their address, which the table then has.
record Gives (opt : RedisOptions) (p : Pools) (q : ℕ) (p' : Pools) : Type 0 where
  result : connect_redis (some opt) p ≡ (some q, p')
  found : lookup opt.addr p'.rdbs ≡ some q
  fresh : (load_pool opt p ≢ none) ⊎ (get_elem? p'.made q ≡ some opt)
  kept : Keeps p p'
  in_order : IsPools p'

connect_redis-Gives :
    (opt : RedisOptions) (p : Pools) → IsPools p → (q : ℕ) × (p' : Pools) × Gives opt p q p'
unfolding connect_redis load_pool
connect_redis-Gives opt p h = elim (Option-cases (load_pool opt p)) [
  | inl new ↦ (
    length p.made,
    store_pool opt p,
    record {
      result = rw (new, connect_redis) refl;
      found =
          ground
            (arith, lookup-insert opt.addr opt.addr (length p.made) p.rdbs, bytes_eq_refl opt.addr);
      fresh = inr (get_elem?-append_length p.made opt);
      kept = store_pool-Keeps opt p new;
      in_order = store_pool-IsPools opt p h;
    },
  )
  | inr (q, old) ↦ (
    q,
    p,
    record {
      result = rw (old, connect_redis) refl;
      found = old;
      fresh = inl (λ new. absurd (let c = sym new ∙ old in cc));
      kept = Keeps-refl p;
      in_order = h;
    },
  )
]

connect_all-Keeps :
    (opts : List (Option RedisOptions)) (p : Pools)
    → IsPools p
    → Keeps p (connect_all opts p) × IsPools (connect_all opts p)
unfolding connect_redis
connect_all-Keeps [] p h = (Keeps-refl p, h)
connect_all-Keeps (none ∷ opts) p h = connect_all-Keeps opts p h
connect_all-Keeps (some opt ∷ opts) p h =
    let (q, p', g) = connect_redis-Gives opt p h in
    let (kept, sound) = connect_all-Keeps opts p' g.in_order in
    subst (λ r. Keeps p (connect_all opts r.1) × IsPools (connect_all opts r.1)) (sym g.result)
      (Keeps-trans g.kept kept, sound)

-- Take a connection, any others after it, and then one more, each of the two with options, from pools
-- in order. Both are given a pool, whose clients are made with options of the address that was asked
-- for, and the two pools are the same if and only if the addresses are. If the first address had no
-- pool yet, then the clients of its pool, and so those of the second connection to this address, are
-- made with all the options of the first.
pub connect_shares :
    (p : Pools) (o o' : RedisOptions) (between : List (Option RedisOptions))
    → IsPools p
    → let p' = connect_all between (connect_redis (some o) p).1 in
      let p'' = (connect_redis (some o') p').1 in
      (q q' : ℕ) × (used used' : RedisOptions) × ((connect_redis (some o) p).0 ≡ some q)
      × ((connect_redis (some o') p').0 ≡ some q')
      × (get_elem? p''.made q ≡ some used)
      × (get_elem? p''.made q' ≡ some used')
      × (used.addr ≡ o.addr)
      × (used'.addr ≡ o'.addr)
      × ((q ≡ q') ↔ (o.addr ≡ o'.addr))
      × ((load_pool o p ≢ none) ⊎ (used ≡ o))
connect_shares p o o' between h =
    let (q, p1, g) = connect_redis-Gives o p h in
    let (k, h2) = connect_all-Keeps between p1 g.in_order in
    let (q', p3, g') = connect_redis-Gives o' (connect_all between p1) h2 in
    let (used, at, of) = g.in_order.connects o.addr q g.found in
    let (used', at', of') = g'.in_order.connects o'.addr q' g'.found in
    let kept = Keeps-trans k g'.kept in
    let at_end = kept.options q used at in
    let here = kept.pools o.addr q g.found in
    let same : connect_redis (some o') (connect_all between (connect_redis (some o) p).1)
        ≡ (some q', p3) =
      ap (λ r. connect_redis (some o') (connect_all between r.1)) g.result ∙ g'.result in
    (
      q,
      q',
      used,
      used',
      ap (λ r. r.0) g.result,
      ap (λ r. r.0) same,
      ap (λ r. get_elem? r.1.made q) same ∙ at_end,
      ap (λ r. get_elem? r.1.made q') same ∙ at',
      of,
      of',
      (
        (λ e.
            let u = sym at_end ∙ ap (get_elem? p3.made) e ∙ at' in
            sym of ∙ ap (λ v. v.addr) (some_inj u) ∙ of'),
        (λ e. some_inj (sym here ∙ ap (λ a. lookup a p3.rdbs) e ∙ g'.found)),
      ),
      elim g.fresh [ inl old ↦ inl old | inr new ↦ inr (some_inj (sym at ∙ new)) ],
    )
