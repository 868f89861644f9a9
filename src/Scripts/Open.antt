-- ===== src/Scripts/Open.antt =====
-- scripts.go: the scan of the script folder, `OpenPackage` with the table `package`, and `seeall`.
use runtimelua.Common.{
  ℕ, ◌⊎◌, Bool, true, Option, none, some, List, [], ◌∷◌, ◌++◌, Bytes, codes, if◌then◌else◌,
}
use runtimelua.Lua.{LValue}
use runtimelua.Scripts.Registry.{ScriptModule, insert}
use runtimelua.Scripts.Loader.{scan_loop}
use runtimelua.Scripts.Package.{lo_get_path}

-- What `filepath.Walk` calls its function with, for each file and folder in turn: a path and whether
-- it is a folder, or an error. If the function returns an error, the walk ends with it.
pub data Visit : Type 0 where
  visit : Bytes → Bool → Visit
  failure : Bytes → Visit

-- The walk with the function `fn` of `scan`: `none` is its error.
unfoldable pub walk : List Visit → List Bytes → Option (List Bytes)
walk [] paths = some paths
walk (visit path is_dir ∷ vs) paths = walk vs (if is_dir then paths else paths ++ (path ∷ []))
walk (failure e ∷ vs) paths = none

unfoldable pub found_paths : Option (List Bytes) → List Bytes
found_paths none = []
found_paths (some paths) = paths

unfoldable pub scan : List Visit → List Bytes
unfolding walk found_paths
scan visits = found_paths (walk visits [])

-- A script module with its `sync.Once`.
pub record Scripts : Type 0 where
  pub once : Bool
  pub scripts : ScriptModule

-- `sm.once.Do` of `OpenPackage`: the files of the folder are cached at the first call only. The
-- watcher that it starts stands in Scripts/Watch.
unfoldable pub open_scripts :
    (List Bytes → List Bytes)
    → (Bytes → Bytes)
    → (Bytes → Bytes ⊎ Bytes)
    → List Visit
    → Scripts
    → Scripts
unfolding scan
open_scripts sort rel read_file visits s =
    if s.once
    then s
    else record { once = true; scripts = scan_loop sort rel read_file (scan visits) s.scripts }

-- The functions of the table `package`, and its loaders.
pub data LoFunction : Type 0 where
  load_lib see_all : LoFunction

pub data LoLoader : Type 0 where
  loader_preload loader_cache : LoLoader

unfoldable pub lo_funcs : List (Bytes × LoFunction)
lo_funcs = (codes "loadlib", load_lib) ∷ (codes "seeall", see_all) ∷ []

-- The table `package` of a virtual machine. The registry's `_LOADERS` and `_LOADED` are the tables
-- `loaders` and `loaded` themselves.
pub record Package : Type 0 where
  pub functions : List (Bytes × LoFunction)
  pub preload : List (Bytes × LValue)
  pub loaders : List LoLoader
  pub loaded : List (Bytes × LValue)
  pub path : Bytes
  pub cpath : Bytes

-- The function that `OpenPackage` returns, at the value of the environment variable `LUA_PATH`, empty
-- if there is none, and the default of gopher-lua.
unfoldable pub open_package : Bytes → Bytes → Package
unfolding lo_funcs
open_package env path_default = record {
  functions = lo_funcs;
  preload = [];
  loaders = loader_preload ∷ loader_cache ∷ [];
  loaded = [];
  path = lo_get_path env path_default;
  cpath = [];
}

-- `loSeeAll`, on the metatable of the module, if it has one, and the table of globals by its number;
-- `none` is the error of the check, that the argument is no table. The metatable has none itself.
unfoldable pub index_globals : ℕ → Option (List (Bytes × ℕ)) → List (Bytes × ℕ)
index_globals globals none = (codes "__index", globals) ∷ []
index_globals globals (some mt) = insert (codes "__index") globals mt

unfoldable pub lo_see_all : ℕ → Option (Option (List (Bytes × ℕ))) → Option (List (Bytes × ℕ))
unfolding index_globals
lo_see_all globals none = none
lo_see_all globals (some mt) = some (index_globals globals mt)
