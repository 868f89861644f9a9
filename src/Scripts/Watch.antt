-- ===== src/Scripts/Watch.antt =====
-- scripts.go: the watcher in `OpenPackage`, which reloads a changed script in every runtime.
-- A runtime is a number.
use runtimelua.Common.{
  ℕ, zero, suc, Bool, true, false, ◌⊎◌, inl, inr, Option, none, some, List, [], ◌∷◌, ◌++◌, Bytes,
  codes, bytes_eq, ltb, ◌==◌, if◌then◌else◌, length,
}
use runtimelua.Common.Text.{has_prefix, ext, to_lower, trim_suffix, replace_byte}
use runtimelua.Event.Object.{FileCache}
use runtimelua.Runtime.World.{World}
use runtimelua.Runtime.Api.{Env}
use runtimelua.Runtime.Update.{Reloaded, reloaded, stuck, unprotected, hotfix_file, patch_file}
use runtimelua.Scripts.Registry.{ScriptModule, get, add}

-- `localHotfixEvent` and `localPatchEvent`, sent to a runtime.
pub data Sent : Type 0 where
  hotfixes : ℕ → Sent
  patches : ℕ → Sent

-- What comes back on the result channel of an event: nil, where the file is as the event leaves it,
-- since both point to one `localFileCache`; an error; or nothing.
pub data Answer : Type 0 where
  accepts : FileCache → Answer
  refuses : Bytes → Answer
  silent : Answer

unfoldable pub answer_of : Reloaded → Answer
answer_of (reloaded none m w) = accepts m
answer_of (reloaded (some e) m w) = refuses e
answer_of stuck = silent
answer_of unprotected = silent

-- What a runtime answers to an event, by the world in which the event has its turn there. It has
-- none in a runtime that is closed or hangs: that stays in the pool, and the send of the event or
-- the receive from its result channel waits for ever.
unfoldable pub answers : (ℕ → Option (Env × World)) → Sent → FileCache → Answer
unfolding answer_of
answers runtimes (hotfixes r) m = elim (runtimes r) [
  | none ↦ silent
  | some (env, w) ↦ answer_of (hotfix_file env m w)
]
answers runtimes (patches r) m = elim (runtimes r) [
  | none ↦ silent
  | some (env, w) ↦ answer_of (patch_file env m w)
]

-- How the loop over the pool ends: all runtimes took the script, one answered with an error, or it
-- waits for the answer of one. `log` holds what was sent. `waiting` is a loop that goes on.
pub data Reload : Type 0 where
  patched : FileCache → List ℕ → List Sent → Reload
  discarded : Bytes → List ℕ → List Sent → Reload
  blocked : List ℕ → List Sent → Reload
  waiting : Reload

-- One answer: `completes` counts the runtimes that took the script, this one excluded.
unfoldable pub next_runtime : List ℕ → List Sent → Answer → ℕ → (FileCache → Reload) → Reload
next_runtime pool log (refuses e) completes rest = discarded e pool log
next_runtime pool log silent completes rest = blocked pool log
next_runtime pool log (accepts m) completes rest =
    if ltb (suc completes) (length pool) then rest m else patched m pool log

-- The loop `HotfixProcess`, with fuel. The pool is a queue: `r := <-sm.runtimes; sm.runtimes <- r`.
-- While it is empty the loop sleeps and tries again.
unfoldable pub hotfix_process :
    ℕ → (Sent → FileCache → Answer) → FileCache → List ℕ → ℕ → List Sent → Reload
unfolding next_runtime
hotfix_process zero answer m pool completes log = waiting
hotfix_process (suc fuel) answer m [] completes log = hotfix_process fuel answer m [] completes log
hotfix_process (suc fuel) answer m (r ∷ pool) completes log =
    let e = if completes == 0 then hotfixes r else patches r in
    let pool' = pool ++ (r ∷ []) in
    let log' = log ++ (e ∷ []) in
    next_runtime pool' log' (answer e m) completes
      (λ m'. hotfix_process fuel answer m' pool' (suc completes) log')

-- fsnotify's operations: the two that the watcher handles alone, and every other value.
pub data Op : Type 0 where
  create write other : Op

abbrev pub disable_hotfix_marker : Bytes
disable_hotfix_marker = codes "---@disable-hotfix"

-- A path, relative to the script folder by `rel`, as a module name with dots.
unfoldable pub module_name : (Bytes → Bytes) → Bytes → Bytes
module_name rel path = replace_byte (trim_suffix (rel path) (ext (rel path))) b'/' (codes ".")

unfoldable pub file_cache : Bytes → Bytes → Bytes → FileCache
file_cache name path content = record {
  hotfix_disabled = has_prefix content disable_hotfix_marker;
  name = name;
  path = path;
  content = content;
}

unfoldable pub skips : Op → Option FileCache → Bool
skips create o = false
skips write none = false
skips write (some m) = m.hotfix_disabled
skips other o = true

-- What one event of the watcher leads to: the cache after it, a watcher that is blocked, or a loop
-- that goes on.
pub data Watched : Type 0 where
  watched : ScriptModule → Watched
  blocks : Watched
  goes_on : Watched

-- `sm.add(m)` of the file that the events had, or its end without that.
unfoldable pub finish_reload : (List Bytes → List Bytes) → ScriptModule → Reload → Watched
finish_reload sort sm (patched m pool log) = watched (add sort m sm)
finish_reload sort sm (discarded e pool log) = watched sm
finish_reload sort sm (blocked pool log) = blocks
finish_reload sort sm waiting = goes_on

-- One event of the watcher.
unfoldable pub watch :
    (List Bytes → List Bytes)
    → (Bytes → Bytes)
    → (Bytes → Bytes ⊎ Bytes)
    → (ℕ → Option (Env × World))
    → ℕ
    → List ℕ
    → Op
    → Bytes
    → ScriptModule
    → Watched
unfolding module_name file_cache skips finish_reload answers
watch sort rel read_file runtimes fuel pool op path sm =
    if bytes_eq (to_lower (ext path)) (codes ".lua")
    then (if skips op (get (module_name rel path) sm) then watched sm else elim (read_file path) [
      | inl e ↦ watched sm
      | inr content ↦
          let m = file_cache (module_name rel path) path content in
          finish_reload sort sm (hotfix_process fuel (answers runtimes) m pool 0 [])
    ])
    else watched sm
