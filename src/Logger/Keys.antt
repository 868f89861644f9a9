-- ===== src/Logger/Keys.antt =====
-- Which tables the functions of the module logger take.
use runtimelua.Common.{
  ℕ, ◌≡◌, refl, arith, ◌⊎◌, inl, inr, Option, none, some, Option-cases, List, Bytes,
}
use runtimelua.Lua.{LValue, table, Entries, end, entry}
use runtimelua.Luaconv.Convert.{Api, lua_value}
use runtimelua.Logger.{
  LogField, Level, panics, logged, key_text, field_of, append_field, collapse_to_log, log_value,
  log_at,
}

-- Some entry of the table.
abbrev pub AnyEntry : (LValue → LValue → Type 0) → Entries → Type 0
AnyEntry P end = ⊥
AnyEntry P (entry k v es) = P k v ⊎ AnyEntry P es

-- An entry whose key is neither an integer nor a text, and whose value can be a field.
abbrev pub HasNoName : Api → (ℕ → Bytes) → LValue → LValue → Type 0
HasNoName api format k v =
    (key_text format (lua_value api k) ≡ none)
    × (f : Bytes → LogField) × (field_of (lua_value api v) ≡ some f)

append_field-none :
    (key : Option Bytes) (f : Option (Bytes → LogField)) (rest : List LogField)
    → append_field key f rest ≡ none
    → (key ≡ none) × (g : Bytes → LogField) × (f ≡ some g)
unfolding append_field
append_field-none key none rest h = absurd (ground (arith, h))
append_field-none (some key) (some f) rest h = absurd (ground (arith, h))
append_field-none none (some f) rest h = (refl, f, refl)

collapse_to_log-none :
    (api : Api) (format : ℕ → Bytes) (es : Entries)
    → collapse_to_log api format es ≡ none
    → AnyEntry (HasNoName api format) es
unfolding collapse_to_log
collapse_to_log-none api format end h = absurd (ground (arith, h))
collapse_to_log-none api format (entry k v es) h =
    elim (Option-cases (collapse_to_log api format es)) [
      | inl bad ↦ inr (collapse_to_log-none api format es bad)
      | inr (rest, good) ↦ inl (append_field-none _ _ rest (rw (collapse_to_log, good) at h))
    ]

none-collapse_to_log :
    (api : Api) (format : ℕ → Bytes) (es : Entries)
    → AnyEntry (HasNoName api format) es
    → collapse_to_log api format es ≡ none
unfolding collapse_to_log append_field
none-collapse_to_log api format end h = elim h [ ]
none-collapse_to_log api format (entry k v es) (inr h) =
    ground (arith, none-collapse_to_log api format es h)
none-collapse_to_log api format (entry k v es) (inl (bad, f, is)) =
    elim (Option-cases (collapse_to_log api format es)) [
      | inl bad_rest ↦ ground (arith, bad_rest)
      | inr (rest, good) ↦ ground (arith, good, bad, is)
    ]

-- With a message and a table, a function of the logger panics if and only if an entry of the table
-- has a key that becomes neither an integer nor a text, as a boolean or a fraction, and a value that
-- can be a field; else it logs the message at its level.
pub log_at-panics :
    (api : Api) (format : ℕ → Bytes) (level : Level) (msg : Bytes) (es : Entries)
    → ((log_at api format level (some msg) (table es) ≡ panics)
        × AnyEntry (HasNoName api format) es)
      ⊎ ((fs : List LogField) × (collapse_to_log api format es ≡ some fs)
          × (log_at api format level (some msg) (table es) ≡ logged level msg fs)
          × (AnyEntry (HasNoName api format) es → ⊥))
unfolding log_at log_value
log_at-panics api format level msg es = elim (Option-cases (collapse_to_log api format es)) [
  | inl bad ↦ inl (ground (arith, bad), collapse_to_log-none api format es bad)
  | inr (fs, good) ↦ inr (
    fs,
    good,
    ground (arith, good),
    λ any. ground (arith, good, none-collapse_to_log api format es any),
  )
]
