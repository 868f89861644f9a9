-- ===== src/Lua.antt =====
-- The values that cross between Go and the Lua virtual machine (gopher-lua).
-- A number is a float64, kept as its bit pattern: what Go's conversions make of a pattern is a
-- parameter of the code that converts. A table is its entries, in the order of `ForEach`.
-- A `function` is a Lua closure, a `handle` the table that `LuaValue` makes for an event; both
-- stand for the object by its number.
use runtimelua.Common.{ℕ, Bool, false, Bytes}

mutual
  pub data LValue : Type 0 where
    nil : LValue
    bool : Bool → LValue
    number : ℕ → LValue
    string : Bytes → LValue
    function : ℕ → LValue
    handle : ℕ → LValue
    table : Entries → LValue

  pub data Entries : Type 0 where
    end : Entries
    entry : LValue → LValue → Entries → Entries

-- `ret, ok := v.(lua.LBool); ok && ret == lua.LTrue`.
unfoldable pub is_true : LValue → Bool
is_true (bool b) = b
is_true _ = false
