-- ===== src/Redis/Pools.antt =====
-- module_redis.go: `connect_redis`, which keeps a pool of clients for each address in the variable
-- `rdbs` of the package.
use runtimelua.Common.{ℕ, Option, none, some, List, [], ◌∷◌, ◌++◌, Bytes, length}
use runtimelua.Scripts.Registry.{lookup, insert}

-- `redis.Options` of go-redis, by its address and its database.
pub record RedisOptions : Type 0 where
  pub addr : Bytes
  pub db : ℕ

-- `rdbs`, and the options that the clients of each pool are made with; a pool is named by its place
-- among these.
pub record Pools : Type 0 where
  pub rdbs : List (Bytes × ℕ)
  pub made : List RedisOptions

-- `rdbs.Load` and `rdbs.Store`.
unfoldable pub load_pool : RedisOptions → Pools → Option ℕ
load_pool opt p = lookup opt.addr p.rdbs

unfoldable pub store_pool : RedisOptions → Pools → Pools
store_pool opt p = record {
  rdbs = insert opt.addr (length p.made) p.rdbs;
  made = p.made ++ (opt ∷ []);
}

-- The result is nil without options.
unfoldable pub connect_redis : Option RedisOptions → Pools → Option ℕ × Pools
unfolding load_pool store_pool
connect_redis none p = (none, p)
connect_redis (some opt) p = elim (load_pool opt p) [
  | some q ↦ (some q, p)
  | none ↦ (some (length p.made), store_pool opt p)
]

-- The pools after several connections.
abbrev pub connect_all : List (Option RedisOptions) → Pools → Pools
connect_all [] p = p
connect_all (opt ∷ opts) p = connect_all opts (connect_redis opt p).1
