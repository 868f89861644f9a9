-- ===== src/Scripts/Refinement.antt =====
-- The watcher against a catalog of scripts: what a reload is for.
use runtimelua.Common.{
  ℕ, ◌≤◌, ◌≡◌, refl, ap, subst, ◌∙◌, some_inj, [], arith, ◌⊎◌, inl, inr, Bool, true, false, Option,
  none, some, List, ◌∷◌, Bytes, codes, bytes_eq, if◌then◌else◌, length, Bool-cases,
}
use runtimelua.Common.Text.{has_prefix, ext, to_lower, trim_suffix, replace_byte}
use runtimelua.Event.Object.{FileCache}
use runtimelua.Runtime.World.{World}
use runtimelua.Runtime.Api.{Env}
use runtimelua.Scripts.Registry.{ScriptModule, get, inherit, add, get-add}
use runtimelua.Scripts.Watch.{
  Sent, Answer, answers, Reload, patched, discarded, blocked, waiting, Op, create, write, other,
  module_name, file_cache, skips, Watched, watched, blocks, finish_reload, watch, hotfix_process,
}
use runtimelua.Scripts.Catalog.{Verdict, all_take, refused, unanswered, verdict, ended, ended_pool}

-- The scripts by their names.
abbrev pub Catalog : Type 0
Catalog = Bytes → Option FileCache

abbrev pub catalog : ScriptModule → Catalog
catalog sm name = get name sm

-- Whether a script may be reloaded is settled when it first comes into the catalog.
abbrev pub settled : FileCache → Option FileCache → FileCache
settled m none = m
settled m (some old) = record {
  hotfix_disabled = old.hotfix_disabled;
  name = m.name;
  path = m.path;
  content = m.content;
}

abbrev pub replace : FileCache → Catalog → Catalog
replace m cat name = if bytes_eq m.name name then some (settled m (cat m.name)) else cat name

-- The name of a file of the script folder: its path in the folder without its ending, with dots for
-- the slashes.
abbrev pub dotted : (Bytes → Bytes) → Bytes → Bytes
dotted rel path = replace_byte (trim_suffix (rel path) (ext (rel path))) b'/' (codes ".")

-- The script of a Lua file that can be read.
abbrev pub script_with : (Bytes → Bytes) → Bytes → Bytes ⊎ Bytes → Option FileCache
script_with rel path (inl e) = none
script_with rel path (inr content) = some (record {
  hotfix_disabled = has_prefix content (codes "---@disable-hotfix");
  name = dotted rel path;
  path = path;
  content = content;
})

abbrev pub script_of : (Bytes → Bytes) → (Bytes → Bytes ⊎ Bytes) → Bytes → Option FileCache
script_of rel read_file path =
    if bytes_eq (to_lower (ext path)) (codes ".lua")
    then script_with rel path (read_file path)
    else none

-- The script that a change of a file brings: one that is created, or one that is written, if it is
-- new or may be reloaded.
abbrev pub brought :
    (Bytes → Bytes) → (Bytes → Bytes ⊎ Bytes) → Op → Bytes → Catalog → Option FileCache
brought rel read_file create path cat = script_of rel read_file path
brought rel read_file write path cat = elim (cat (dotted rel path)) [
  | none ↦ script_of rel read_file path
  | some old ↦ if old.hotfix_disabled then none else script_of rel read_file path
]
brought rel read_file other path cat = none

-- The catalog after it: with the script as the runtimes leave it if all take it, as it was if there
-- is no script or one runtime refuses it, and none if a runtime does not answer.
abbrev pub accept_by : Verdict → Catalog → Option Catalog
accept_by (all_take m) cat = some (replace m cat)
accept_by refused cat = some cat
accept_by unanswered cat = none

abbrev pub accept :
    (Sent → FileCache → Answer) → List ℕ → Option FileCache → Catalog → Option Catalog
accept answer pool none cat = some cat
accept answer pool (some m) cat = accept_by (verdict answer m 0 pool) cat

-- The watcher ends with a cache that shows the catalog, or is blocked where there is none.
abbrev pub Shows : Watched → Option Catalog → Type 0
Shows (watched sm) (some cat) = (name : Bytes) → get name sm ≡ cat name
Shows blocks none = Unit {0}
Shows _ _ = ⊥

inherit-settled : (o : Option FileCache) (m : FileCache) → inherit o m ≡ settled m o
unfolding inherit
inherit-settled none m = refl
inherit-settled (some old) m = refl

finish_reload-Shows :
    (sort : List Bytes → List Bytes) (sm : ScriptModule) (r : Reload) (v : Verdict)
    → ended r ≡ some v
    → Shows (finish_reload sort sm r) (accept_by v (catalog sm))
unfolding finish_reload
finish_reload-Shows sort sm (patched m pool log) v h =
    subst (λ u. Shows (watched (add sort m sm)) (accept_by u (catalog sm))) (some_inj h)
      (λ name.
        get-add sort m sm name
        ∙ ap (λ n. if bytes_eq m.name name then some n else get name sm)
            (inherit-settled (get m.name sm) m))
finish_reload-Shows sort sm (discarded e pool log) v h =
    subst (λ u. Shows (watched sm) (accept_by u (catalog sm))) (some_inj h) (λ name. refl)
finish_reload-Shows sort sm (blocked pool log) v h =
    subst (λ u. Shows blocks (accept_by u (catalog sm))) (some_inj h) tt
finish_reload-Shows sort sm waiting v h = absurd (ground (arith, h))

module _ (sort : List Bytes → List Bytes) (rel : Bytes → Bytes) (read_file : Bytes → Bytes ⊎ Bytes)
    (runtimes : ℕ → Option (Env × World)) (fuel r : ℕ) (pool : List ℕ) (path : Bytes)
    (sm : ScriptModule) (enough : length (r ∷ pool) ≤ fuel) where
  -- What the watcher does with a change of a script that it does not skip.
  abbrev reloads : Bytes ⊎ Bytes → Watched
  reloads x = elim x [
    | inl e ↦ watched sm
    | inr content ↦ finish_reload sort sm (
        hotfix_process fuel (answers runtimes) (file_cache (module_name rel path) path content)
          (r ∷ pool) 0 [])
  ]

  abbrev changes : Bool → Watched
  changes skipped =
      if bytes_eq (to_lower (ext path)) (codes ".lua")
      then (if skipped then watched sm else reloads (read_file path))
      else watched sm

  reloads-Shows :
      (x : Bytes ⊎ Bytes)
      → Shows
          (reloads x)
          (accept (answers runtimes) (r ∷ pool) (script_with rel path x) (catalog sm))
  unfolding module_name file_cache
  reloads-Shows (inl e) = λ name. refl
  reloads-Shows (inr content) =
      finish_reload-Shows sort sm _ _ (ended_pool (answers runtimes) _ r pool fuel enough)

  changes-Shows :
      Shows
        (changes false)
        (accept (answers runtimes) (r ∷ pool) (script_of rel read_file path) (catalog sm))
  changes-Shows = elim (Bool-cases (bytes_eq (to_lower (ext path)) (codes ".lua"))) [
    | inr alien ↦ rw alien (λ name. refl)
    | inl lua ↦ rw lua (reloads-Shows (read_file path))
  ]

  skipped-Shows : Shows (changes true) (some (catalog sm))
  skipped-Shows = elim (Bool-cases (bytes_eq (to_lower (ext path)) (codes ".lua"))) [
    | inr alien ↦ rw alien (λ name. refl)
    | inl lua ↦ rw lua (λ name. refl)
  ]

  written-Shows :
      (o : Option FileCache)
      → Shows (changes (skips write o)) (
          accept
            (answers runtimes)
            (r ∷ pool)
            (elim o [
              | none ↦ script_of rel read_file path
              | some old ↦ if old.hotfix_disabled then none else script_of rel read_file path
            ])
            (catalog sm))
  unfolding skips
  written-Shows none = changes-Shows
  written-Shows (some old) = elim (Bool-cases old.hotfix_disabled) [
    | inl fixed ↦ rw fixed skipped-Shows
    | inr free ↦ rw free changes-Shows
  ]

-- For every pool that is not empty, each of whose runtimes tries the script by its own hotfix or
-- patch or never answers, and for every change of a file: the watcher ends with a cache whose catalog
-- is the old one, with the script that the change brings, as the runtimes leave it, if there is one
-- and all of them take it; but it is blocked, and only then, if there is one and a runtime does not
-- answer before another refuses it.
pub watch-accept :
    (sort : List Bytes → List Bytes) (rel : Bytes → Bytes) (read_file : Bytes → Bytes ⊎ Bytes)
    (runtimes : ℕ → Option (Env × World)) (fuel r : ℕ) (pool : List ℕ) (op : Op) (path : Bytes)
    (sm : ScriptModule)
    → length (r ∷ pool) ≤ fuel
    → Shows (watch sort rel read_file runtimes fuel (r ∷ pool) op path sm) (
        accept
          (answers runtimes)
          (r ∷ pool)
          (brought rel read_file op path (catalog sm))
          (catalog sm))
unfolding watch skips module_name
watch-accept sort rel read_file runtimes fuel r pool create path sm h =
    changes-Shows sort rel read_file runtimes fuel r pool path sm h
watch-accept sort rel read_file runtimes fuel r pool other path sm h =
    skipped-Shows sort rel read_file runtimes fuel r pool path sm h
watch-accept sort rel read_file runtimes fuel r pool write path sm h =
    written-Shows sort rel read_file runtimes fuel r pool path sm h (get (dotted rel path) sm)
