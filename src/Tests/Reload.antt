-- ===== src/Tests/Reload.antt =====
-- The watcher's loop and its catalog on a small pool.
use runtimelua.Common.{
  ℕ, ◌≡◌, refl, ◌⊎◌, inr, Option, [], ◌∷◌, some, false, Bytes, codes, arith, bytes_eq,
}
use runtimelua.Common.Text.{to_lower, ext, has_prefix, replace_byte, trim_suffix, has_suffix}
use runtimelua.Runtime.Exec.{pcall}
use runtimelua.Event.Object.{FileCache, patch, valid}
use runtimelua.Event.State
use runtimelua.Event.State.{load}
use runtimelua.Runtime.World.{World, no_package, has_preload, set_preload, is_loaded}
use runtimelua.Runtime.Update.{update, update_reload, hotfix_file, patch_file, finish_reload}
use runtimelua.Runtime.Process.{turn, take_turn, after_update, crashes}
use runtimelua.Runtime.Reloads.{asked}
use runtimelua.Tests.World.{yes_env, world_of}
use runtimelua.Scripts.Registry.{new_script_module, add}
use runtimelua.Runtime.Api.{Env, perform_all}
use runtimelua.Scripts.Watch.{
  create, answers, watched, watch, module_name, hotfix_process, file_cache,
}
use runtimelua.Scripts.Refinement.{Shows, accept, brought, catalog, watch-accept}

abbrev path_of : Bytes
path_of = codes "a/b.lua"

abbrev script : FileCache
script = record { hotfix_disabled = false; name = codes "a"; path = codes "a.lua"; content = [] }

abbrev reloaded_script : FileCache
reloaded_script = record {
  hotfix_disabled = false;
  name = codes "a.b";
  path = path_of;
  content = codes "return 1";
}

-- Two runtimes that run what they are sent.
abbrev two : ℕ → Option (Env × World)
two r = some (yes_env, world_of (patch (asked script)))

abbrev one : Bytes → Bytes ⊎ Bytes
one p = inr (codes "return 1")

watch-accept_example :
    Shows (watch (λ ns. ns) (λ p. p) one two 2 (1 ∷ 2 ∷ []) create path_of new_script_module) (
      accept
        (answers two)
        (1 ∷ 2 ∷ [])
        (brought (λ p. p) one create path_of (catalog new_script_module))
        (catalog new_script_module))
watch-accept_example =
    watch-accept (λ ns. ns) (λ p. p) one two 2 1 (2 ∷ []) create path_of new_script_module
      (omega arith)

-- The script is in the cache, with the text that the hotfix read.
both_take :
    watch (λ ns. ns) (λ p. p) one two 2 (1 ∷ 2 ∷ []) create path_of new_script_module
    ≡ watched (add (λ ns. ns) reloaded_script new_script_module)
unfolding watch module_name answers hotfix_process file_cache bytes_eq to_lower ext hotfix_file
    pcall perform_all patch_file has_preload set_preload is_loaded has_prefix replace_byte
    trim_suffix has_suffix
both_take = refl

-- A patch where `package` is no longer a table.
abbrev cleared : World
cleared = record (world_of (patch (asked script))) { lua_package = no_package }

patch_crashes : turn yes_env 66 0 [] cleared ≡ crashes
unfolding turn take_turn after_update valid State.valid load update update_reload patch_file
    has_preload finish_reload
patch_crashes = refl
