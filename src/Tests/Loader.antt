-- ===== src/Tests/Loader.antt =====
-- The files of a folder, and a required script.
use runtimelua.Common.{
  ◌≡◌, ◌≢◌, ◌↔◌, All, refl, ◌⊎◌, inr, List, [], ◌∷◌, none, some, true, false, Bytes, codes,
  bytes_eq, drop,
}
use runtimelua.Common.Text.{
  ext, to_lower, lower, contains_byte, split_byte, push_first, replace_byte, trim_prefix,
  trim_suffix, has_prefix, has_suffix,
}
use mathlib.Core.List.Perm
use runtimelua.Event.Object.{FileCache}
use runtimelua.Scripts.Registry.{ScriptModule, get, lookup, new_script_module}
use runtimelua.Scripts.Listing.{IsRegistry, new_script_module-IsRegistry}
use runtimelua.Scripts.Loader.{is_lua, scan_loop, candidate, loader_cache, loaded}
use runtimelua.Scripts.Requires.{scan_loop-IsRegistry, loader_finds}
use runtimelua.Scripts.Open.{Visit, visit, open_scripts}
use runtimelua.Scripts.Opened.{IsFine, Names, files, open_scripts-Names}

abbrev keep_order : List Bytes → List Bytes
keep_order names = names

abbrev folder : Bytes
folder = codes "/lua/"

-- A path relative to the folder.
abbrev relative : Bytes → Bytes
relative path = drop 5 path

abbrev readable : Bytes → Bytes ⊎ Bytes
readable path = inr (codes "return 1")

abbrev paths : List Bytes
paths = codes "/lua/notes.txt" ∷ codes "/lua/a/b.lua" ∷ []

scan_loop-IsRegistry_example :
    IsRegistry (scan_loop keep_order relative readable paths new_script_module)
scan_loop-IsRegistry_example =
    scan_loop-IsRegistry keep_order relative readable (λ names. Perm.rfl) paths new_script_module
      new_script_module-IsRegistry

b_is_lua : is_lua (codes "/lua/a/b.lua") ≡ true
unfolding is_lua bytes_eq to_lower lower ext contains_byte
b_is_lua = refl

abbrev b_file : FileCache
b_file = record {
  hotfix_disabled = false;
  name = codes "a.b";
  path = codes "/lua/a/b.lua";
  content = codes "return 1";
}

abbrev cached : ScriptModule
cached = record { names = codes "a.b" ∷ []; modules = (codes "a.b", b_file) ∷ [] }

abbrev search_path : Bytes
search_path = codes "./?.lua;/lua/?.lua"

two_templates : split_byte search_path b';' ≡ codes "./?.lua" ∷ codes "/lua/?.lua" ∷ []
unfolding split_byte push_first
two_templates = refl

not_here : get (candidate folder (codes "a/b") (codes "./?.lua")) cached ≡ none
unfolding get lookup candidate replace_byte trim_prefix trim_suffix has_prefix has_suffix bytes_eq
not_here = refl

b_cached : get (replace_byte (codes "a/b") b'/' (codes ".")) cached ≡ some b_file
unfolding get lookup replace_byte bytes_eq
b_cached = refl

loader_finds_example :
    loader_cache (λ path content. none) folder search_path cached (codes "a/b") ≡ loaded b_file
loader_finds_example =
    loader_finds (λ path content. none) folder search_path (codes "a/b") cached
      (codes "./?.lua" ∷ []) [] b_file two_templates (not_here, tt) b_cached refl

abbrev visits : List Visit
visits =
    visit (codes "/lua") true
    ∷ visit (codes "/lua/notes.txt") false
    ∷ visit (codes "/lua/a") true
    ∷ visit (codes "/lua/a/b.lua") false
    ∷ []

visits-IsFine : All (IsFine readable) visits
visits-IsFine = (
  λ d lua. (codes "return 1", refl),
  (
    λ d lua. (codes "return 1", refl),
    (λ d lua. (codes "return 1", refl), (λ d lua. (codes "return 1", refl), tt)),
  ),
)

open_scripts-Names_example :
    let s =
      open_scripts keep_order relative readable visits
        (record { once = false; scripts = new_script_module }) in
    ((name : Bytes) → (get name s.scripts ≢ none) ↔ Names relative name (files visits))
    × ((later : List Visit) → open_scripts keep_order relative readable later s ≡ s)
open_scripts-Names_example = open_scripts-Names keep_order relative readable visits visits-IsFine
