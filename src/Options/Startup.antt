-- ===== src/Options/Startup.antt =====
-- runtime.go: `Startup`, up to what the entry script returns. The standard libraries are gopher-lua's.
use runtimelua.Common.{
  ℕ, ◌⊎◌, inl, inr, Bool, true, false, Option, none, some, List, [], ◌∷◌, Bytes, codes,
}
use runtimelua.Lua.{LValue, nil}
use runtimelua.Luaconv.Convert.{Api, GoValue, lua_value}
use runtimelua.Scripts.Registry.{insert}
use runtimelua.Options.{Module, Library, Settings}

-- What `package.preload` holds under a name.
pub data Opener : Type 0 where
  opens_runtime : Opener
  opens_library : Library → Opener
  opens_module : Module → Opener

-- `for name, lib := range r.auxlibs` and the loop over the modules, in one of the orders that
-- `range` may take.
unfoldable pub preload_all {ℓ} :
    {V : Type ℓ} → (V → Opener) → List (Bytes × V) → List (Bytes × Opener) → List (Bytes × Opener)
preload_all opener [] table = table
preload_all opener ((k, v) ∷ m) table = insert k (opener v) (preload_all opener m table)

unfoldable pub preloaded : Settings → List (Bytes × Opener)
unfolding preload_all
preloaded s =
    preload_all opens_module s.preloads
      (preload_all opens_library s.auxlibs (insert (codes "runtime") opens_runtime []))

-- What the handler of `WithEvaluation` is called with.
pub data Evaluated : Type 0 where
  evaluated_error : Bytes → Evaluated
  evaluated : GoValue → Evaluated

-- How `Startup` ends: `cancelled` says that it cancels the context. The loop is a goroutine by then.
pub record Started : Type 0 where
  pub preloads : List (Bytes × Opener)
  pub cancelled : Bool
  pub handled : Option (ℕ × Evaluated)

unfoldable pub report : Option ℕ → Evaluated → Option (ℕ × Evaluated)
report none x = none
report (some f) x = some (f, x)

-- `if ret := r.vm.Get(-1); ret != lua.LNil`.
unfoldable pub report_value : Api → Option ℕ → LValue → Option (ℕ × Evaluated)
unfolding report
report_value api f nil = none
report_value api f ret = report f (evaluated (lua_value api ret))

-- `require` of the entry script, by its name and what is preloaded: an error, or the value that is
-- left on the stack.
unfoldable pub run_entry : Api → Settings → Bytes ⊎ LValue → Started
unfolding report report_value preloaded
run_entry api s (inl e) = record {
  preloads = preloaded s;
  cancelled = true;
  handled = report s.evaluate (evaluated_error e);
}
run_entry api s (inr ret) = record {
  preloads = preloaded s;
  cancelled = false;
  handled = report_value api s.evaluate ret;
}

-- `r.scripts.OpenPackage()` dereferences `scripts` first: `none` is the panic at a nil one.
unfoldable pub startup :
    Api → (Bytes → List (Bytes × Opener) → Bytes ⊎ LValue) → Settings → Option Started
unfolding run_entry preloaded
startup api require s = elim s.scripts [
  | none ↦ none
  | some scripts ↦ some (run_entry api s (require s.script (preloaded s)))
]
