-- ===== src/Options/Preloads.antt =====
-- What the scripts of a runtime can require, by its options.
use runtimelua.Common.{Option, none, some, List, [], ◌∷◌, Bytes, codes, bytes_eq, if◌then◌else◌}
use runtimelua.Options.{
  Module, redis, event, logger, http, zmq, custom, Library, open_json, open_aes256, open_aes128,
  open_md5, open_uuid, open_base64, open_bit32, open_bit64, RuntimeOption, with_module_redis,
  with_module_event, with_module_logger, with_module_http, with_module_zmq, with_module,
  with_runtime_module, with_lib_json, with_lib_aes256, with_lib_aes128, with_lib_md5, with_lib_uuid,
  with_lib_base64, with_lib_bit32, with_lib_bit64,
}
use runtimelua.Options.Startup.{Opener, opens_runtime, opens_library, opens_module}

-- The module and the library that an option names.
abbrev pub module_of : RuntimeOption → Option (Bytes × Module)
module_of (with_module_redis l opts) = some (codes "redis", redis l opts)
module_of (with_module_event l) = some (codes "event", event l)
module_of (with_module_logger l) = some (codes "logger", logger l)
module_of (with_module_http l) = some (codes "http", http l)
module_of (with_module_zmq l) = some (codes "zmq", zmq l)
module_of (with_module name m) = some (name, custom m)
module_of (with_runtime_module name m) = some (name, custom m)
module_of _ = none

abbrev pub library_of : RuntimeOption → Option (Bytes × Library)
library_of with_lib_json = some (codes "json", open_json)
library_of with_lib_aes256 = some (codes "ase256", open_aes256)
library_of with_lib_aes128 = some (codes "ase128", open_aes128)
library_of with_lib_md5 = some (codes "base64", open_md5)
library_of with_lib_uuid = some (codes "uuid", open_uuid)
library_of with_lib_base64 = some (codes "base64", open_base64)
library_of with_lib_bit32 = some (codes "bit32", open_bit32)
library_of with_lib_bit64 = some (codes "bit64", open_bit64)
library_of _ = none

-- The last option that gives something for a name, or what there was before.
abbrev pub matches {ℓ} : {V : Type ℓ} → Bytes → Option (Bytes × V) → Option V → Option V
matches name none old = old
matches name (some (k, v)) old = if bytes_eq k name then some v else old

abbrev pub last_of {ℓ} :
    {V : Type ℓ}
    → (RuntimeOption → Option (Bytes × V))
    → Bytes
    → List RuntimeOption
    → Option V
    → Option V
last_of names name [] old = old
last_of names name (x ∷ xs) old = last_of names name xs (matches name (names x) old)

-- A module goes before a library, and that before `runtime`.
abbrev pub offered : Bytes → Option Module → Option Library → Option Opener
offered name (some m) l = some (opens_module m)
offered name none (some l) = some (opens_library l)
offered name none none = if bytes_eq (codes "runtime") name then some opens_runtime else none

-- What the options promise to the scripts under a name: the module of the last option that gives one
-- for it, or else the library of the last option that gives one, or else the module `runtime`.
abbrev pub promised : List RuntimeOption → Bytes → Option Opener
promised options name =
    offered name (last_of module_of name options none) (last_of library_of name options none)
