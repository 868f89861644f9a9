-- ===== src/Options.antt =====
-- option.go, option_zmq.go and runtime.go: the options of a runtime, and what its scripts can
-- require after Startup.
pub mod Startup
pub mod Preloads
use runtimelua.Common.{ℕ, Option, none, some, List, [], ◌∷◌, Bytes, codes}
use runtimelua.Luaconv.Convert.{Api, GoValue, value}
use runtimelua.Lua.{LValue}
use runtimelua.Scripts.Registry.{insert}
use runtimelua.Scripts.Watch.{module_name}

-- The modules that the options add to `preloads`, with their loggers, and one of the caller's by its
-- number.
pub data Module : Type 0 where
  redis : ℕ → ℕ → Module
  event : ℕ → Module
  logger : ℕ → Module
  http : ℕ → Module
  zmq : ℕ → Module
  custom : ℕ → Module

-- The `Open` functions of auxlib/.
pub data Library : Type 0 where
  open_json open_aes256 open_aes128 open_md5 open_uuid open_base64 open_bit32 open_bit64 : Library

-- An `Option`, by the function that makes it. `with_runtime_module` also calls the module's own
-- `InitializeRuntime`, which is no part of the repository.
pub data RuntimeOption : Type 0 where
  with_logger : ℕ → RuntimeOption
  with_context : ℕ → RuntimeOption
  with_wait_group : ℕ → RuntimeOption
  with_module_redis : ℕ → ℕ → RuntimeOption
  with_module_event with_module_logger with_module_http with_module_zmq : ℕ → RuntimeOption
  with_module : Bytes → ℕ → RuntimeOption
  with_runtime_module : Bytes → ℕ → RuntimeOption
  with_lib_json with_lib_aes256 with_lib_aes128 with_lib_md5 with_lib_uuid with_lib_base64
        with_lib_bit32 with_lib_bit64 :
      RuntimeOption
  with_script_entry : Bytes → RuntimeOption
  with_global : Bytes → GoValue → RuntimeOption
  with_evaluation : ℕ → RuntimeOption

-- The fields of `Runtime` that the options set, loggers, contexts, groups and functions by their
-- numbers; the runtime modules that were initialized; and the global names of the virtual machine.
-- Without a script module the field `scripts` is nil.
pub record Settings : Type 0 where
  pub logger : ℕ
  pub context : ℕ
  pub wait_group : ℕ
  pub script : Bytes
  pub evaluate : Option ℕ
  pub preloads : List (Bytes × Module)
  pub auxlibs : List (Bytes × Library)
  pub scripts : Option ℕ
  pub initialized : List ℕ
  pub globals : List (Bytes × LValue)

unfoldable pub preload : Bytes → Module → Settings → Settings
preload name m s = record s { preloads = insert name m s.preloads }

unfoldable pub auxlib : Bytes → Library → Settings → Settings
auxlib name lib s = record s { auxlibs = insert name lib s.auxlibs }

-- `WithScriptEntry`: `rel` is `filepath.Rel` from the script folder, whose error is dropped.
unfoldable pub set_entry : (Bytes → Bytes) → Bytes → Settings → Settings
set_entry rel path s = record s { script = module_name rel path }

-- `WithGlobal` and `WithEvaluation`.
unfoldable pub set_global : Api → Bytes → GoValue → Settings → Settings
set_global api key v s = record s { globals = insert key (value api v) s.globals }

unfoldable pub set_evaluation : ℕ → Settings → Settings
set_evaluation f s = record s { evaluate = some f }

-- `apply`, with `filepath.Rel(lua.LuaLDir, path)`, whose error is dropped, as `rel`.
unfoldable pub apply : Api → (Bytes → Bytes) → RuntimeOption → Settings → Settings
unfolding preload auxlib set_entry set_global set_evaluation
apply api rel (with_logger l) s = record s { logger = l }
apply api rel (with_context c) s = record s { context = c }
apply api rel (with_wait_group g) s = record s { wait_group = g }
apply api rel (with_module_redis l opts) s = preload (codes "redis") (redis l opts) s
apply api rel (with_module_event l) s = preload (codes "event") (event l) s
apply api rel (with_module_logger l) s = preload (codes "logger") (logger l) s
apply api rel (with_module_http l) s = preload (codes "http") (http l) s
apply api rel (with_module_zmq l) s = preload (codes "zmq") (zmq l) s
apply api rel (with_module name m) s = preload name (custom m) s
apply api rel (with_runtime_module name m) s =
    let t = preload name (custom m) s in record t { initialized = m ∷ t.initialized }
apply api rel with_lib_json s = auxlib (codes "json") open_json s
apply api rel with_lib_aes256 s = auxlib (codes "ase256") open_aes256 s
apply api rel with_lib_aes128 s = auxlib (codes "ase128") open_aes128 s
apply api rel with_lib_md5 s = auxlib (codes "base64") open_md5 s
apply api rel with_lib_uuid s = auxlib (codes "uuid") open_uuid s
apply api rel with_lib_base64 s = auxlib (codes "base64") open_base64 s
apply api rel with_lib_bit32 s = auxlib (codes "bit32") open_bit32 s
apply api rel with_lib_bit64 s = auxlib (codes "bit64") open_bit64 s
apply api rel (with_script_entry path) s = set_entry rel path s
apply api rel (with_global key v) s = set_global api key v s
apply api rel (with_evaluation f) s = set_evaluation f s

-- `for _, option := range options { option.apply(r) }`.
unfoldable pub apply_all : Api → (Bytes → Bytes) → List RuntimeOption → Settings → Settings
apply_all api rel [] s = s
apply_all api rel (x ∷ xs) s = apply_all api rel xs (apply api rel x s)

-- The fields before the options: the logger, the context and the group are new ones, numbered 0.
unfoldable pub defaults : Option ℕ → Settings
defaults scripts = record {
  logger = 0;
  context = 0;
  wait_group = 0;
  script = codes "main";
  evaluate = none;
  preloads = [];
  auxlibs = [];
  scripts = scripts;
  initialized = [];
  globals = [];
}

-- `NewRuntime`, and `NewRuntimeWithConfig`, which does not store its script module.
unfoldable pub new_runtime : Api → (Bytes → Bytes) → ℕ → List RuntimeOption → Settings
unfolding apply_all defaults
new_runtime api rel scripts options = apply_all api rel options (defaults (some scripts))

unfoldable pub new_runtime_with_config : Api → (Bytes → Bytes) → ℕ → List RuntimeOption → Settings
unfolding apply_all defaults
new_runtime_with_config api rel scripts options = apply_all api rel options (defaults none)
