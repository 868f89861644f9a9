-- ===== src/Scripts/Package.antt =====
-- scripts.go: the search path, the loader of preloaded modules, and `loadlib`.
use runtimelua.Common.{
  ◌&&◌, Option, none, some, List, [], ◌∷◌, ◌++◌, Bytes, codes, ◌==◌, if◌then◌else◌,
}
use runtimelua.Scripts.Registry.{lookup}

-- `strings.Replace(s, ";;", new, -1)`.
unfoldable pub replace_double : Bytes → Bytes → Bytes
replace_double new [] = []
replace_double new (x ∷ []) = x ∷ []
replace_double new (x ∷ y ∷ rest) =
    let after = replace_double new rest in
    let later = replace_double new (y ∷ rest) in
    if (x == b';') && (y == b';') then new ++ after else x ∷ later

unfoldable pub or_default : Bytes → Bytes → Bytes
or_default defpath [] = defpath
or_default defpath (b ∷ path) = b ∷ path

-- `loGetPath`, where `/` separates paths: `path` is the value of the environment variable, empty if
-- there is none.
unfoldable pub lo_get_path : Bytes → Bytes → Bytes
unfolding replace_double or_default
lo_get_path path defpath =
    replace_double (codes ";" ++ (defpath ++ codes ";")) (or_default defpath path)

-- How a loader ends: with an error about its argument or one that it raises, the opener of a module,
-- or a text about what it did not find.
pub data Found {ℓ} (A : Type ℓ) : Type ℓ where
  type_error : Found A
  raised : Bytes → Found A
  found : A → Found A
  not_found : Bytes → Found A

unfoldable pub preload_field {ℓ} : {A : Type ℓ} → Bytes → Option A → Found A
preload_field name none = not_found (codes "no field package.preload['" ++ (name ++ codes "']"))
preload_field name (some v) = found v

-- `loLoaderPreload`: `name` is what `L.CheckString(1)` gives, and `preload` the table
-- `package.preload`, or none if it is no table.
unfoldable pub lo_loader_preload {ℓ} :
    {A : Type ℓ} → Option Bytes → Option (List (Bytes × A)) → Found A
unfolding preload_field
lo_loader_preload none preload = type_error
lo_loader_preload (some name) none = raised (codes "package.preload must be a table")
lo_loader_preload (some name) (some m) = preload_field name (lookup name m)

unfoldable pub lo_load_lib {ℓ} : {A : Type ℓ} → Found A
lo_load_lib = raised (codes "loadlib is not supported")
