-- ===== src/Tests/Scripts.antt =====
-- The scripts' order, cache and reload.
use runtimelua.Common.{
  ◌≡◌, refl, List, [], ◌∷◌, some, true, false, Bytes, codes, arith, bytes_eq, if◌then◌else◌, ◌==◌,
}
use runtimelua.Common.Text.{has_suffix, count_byte}
use mathlib.Core.List.{mem-cons_self, mem-cons_of_mem}
use runtimelua.Event.Object.{FileCache}
use runtimelua.Scripts.Names.{is_init, depth, Clash, IsOrdered, Clash-unordered}
use runtimelua.Scripts.Registry.{ScriptModule, new_script_module, get, lookup, insert, inherit, add}
use runtimelua.Scripts.Watch.{
  Sent, hotfixes, patches, Answer, accepts, refuses, discarded, hotfix_process,
}
use runtimelua.Scripts.Pool.{reload_stops}

abbrev plain_name : Bytes
plain_name = codes "main"

abbrev init_name : Bytes
init_name = codes "lib.init"

clash : Clash plain_name init_name
unfolding is_init has_suffix depth count_byte bytes_eq
clash = record { plain = refl; init = refl; shallow = omega arith }

Clash-unordered_example : ¬ IsOrdered (init_name ∷ plain_name ∷ [])
Clash-unordered_example =
    Clash-unordered plain_name init_name (init_name ∷ plain_name ∷ []) clash
      (mem-cons_of_mem init_name mem-cons_self) mem-cons_self

abbrev main_file : FileCache
main_file = record {
  hotfix_disabled = true;
  name = plain_name;
  path = codes "main.lua";
  content = codes "return 1";
}

abbrev new_main_file : FileCache
new_main_file = record main_file { hotfix_disabled = false; content = codes "return 2" }

abbrev keep_order : List Bytes → List Bytes
keep_order names = names

abbrev one_file : ScriptModule
one_file = add keep_order main_file new_script_module

main_cached : get plain_name one_file ≡ some main_file
unfolding add get new_script_module lookup insert inherit bytes_eq
main_cached = refl

-- The hotfix reads a new text, with which the runtime 2 refuses the script.
abbrev file_with : Bytes → FileCache
file_with content = record {
  hotfix_disabled = false;
  name = codes "main";
  path = codes "main.lua";
  content = content;
}

abbrev two_refuses : Sent → FileCache → Answer
two_refuses (hotfixes r) m = accepts (file_with (codes "return 2"))
two_refuses (patches r) m = if r == 2 then refuses (codes "syntax") else accepts m

reload_stops_example :
    hotfix_process 3 two_refuses (file_with []) (0 ∷ 1 ∷ 2 ∷ 3 ∷ []) 0 []
    ≡ discarded (codes "syntax") (3 ∷ 0 ∷ 1 ∷ 2 ∷ []) (hotfixes 0 ∷ patches 1 ∷ patches 2 ∷ [])
reload_stops_example =
    reload_stops two_refuses (file_with []) (file_with (codes "return 2")) 0 2 (1 ∷ []) (3 ∷ [])
      (codes "syntax") 0 refl (refl, tt) refl
