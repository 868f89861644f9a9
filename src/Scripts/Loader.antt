-- ===== src/Scripts/Loader.antt =====
-- scripts.go: in `OpenPackage`, the loop that caches the files of the script folder, and the loader
-- of cached scripts that `require` calls.
use runtimelua.Common.{
  ◌⊎◌, inl, inr, Option, none, some, List, [], ◌∷◌, ◌++◌, Bytes, codes, bytes_eq, if◌then◌else◌,
  Bool,
}
use runtimelua.Common.Text.{ext, to_lower, trim_prefix, trim_suffix, replace_byte, split_byte}
use runtimelua.Event.Object.{FileCache}
use runtimelua.Scripts.Registry.{ScriptModule, get, add}
use runtimelua.Scripts.Watch.{module_name, file_cache}

unfoldable pub is_lua : Bytes → Bool
is_lua path = bytes_eq (to_lower (ext path)) (codes ".lua")

-- How a round of the loop over the files ends: it goes on, or breaks, since a file cannot be read.
pub data Scan : Type 0 where
  scanned : ScriptModule → Scan
  halted : ScriptModule → Scan

unfoldable pub scan_file :
    (List Bytes → List Bytes)
    → (Bytes → Bytes)
    → (Bytes → Bytes ⊎ Bytes)
    → Bytes
    → ScriptModule
    → Scan
scan_file sort rel read_file path sm =
    if is_lua path
    then elim (read_file path) [
      | inl e ↦ halted sm
      | inr content ↦ scanned (add sort (file_cache (module_name rel path) path content) sm)
    ]
    else scanned sm

-- `for _, path := range scan(lua.LuaLDir)`, over the files that the walk of the folder found.
unfoldable pub scan_loop :
    (List Bytes → List Bytes)
    → (Bytes → Bytes)
    → (Bytes → Bytes ⊎ Bytes)
    → List Bytes
    → ScriptModule
    → ScriptModule
scan_loop sort rel read_file [] sm = sm
scan_loop sort rel read_file (path ∷ paths) sm = elim (scan_file sort rel read_file path sm) [
  | scanned sm' ↦ scan_loop sort rel read_file paths sm'
  | halted sm' ↦ sm'
]

-- The name that a template of the search path gives; `dir` is `lua.LuaLDir + lua.LuaDirSep`.
unfoldable pub candidate : Bytes → Bytes → Bytes → Bytes
candidate dir name template =
    replace_byte (replace_byte (trim_suffix (trim_prefix template dir) (codes ".lua")) b'?' name)
      b'/' (codes ".")

unfoldable pub search : Bytes → Bytes → ScriptModule → List Bytes → Option FileCache
search dir name sm [] = none
search dir name sm (t ∷ ts) = elim (get (candidate dir name t) sm) [
  | some m ↦ some m
  | none ↦ search dir name sm ts
]

-- How the loader ends: with a message, with the compiled file, or with the error of the compiler.
pub data Loaded : Type 0 where
  message : Bytes → Loaded
  loaded : FileCache → Loaded
  raised : Bytes → Loaded

unfoldable pub finish_load : (Bytes → Bytes → Option Bytes) → Bytes → Option FileCache → Loaded
finish_load compile name none = message (codes "no cached module '" ++ name ++ codes "'")
finish_load compile name (some m) = elim (compile m.path m.content) [
  | none ↦ loaded m
  | some e ↦ raised e
]

-- `loLoaderCache`, at the search path `lua.LuaPathDefault`.
unfoldable pub loader_cache :
    (Bytes → Bytes → Option Bytes) → Bytes → Bytes → ScriptModule → Bytes → Loaded
loader_cache compile dir path_default sm name =
    finish_load compile name (search dir name sm (split_byte path_default b';'))
