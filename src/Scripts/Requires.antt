-- ===== src/Scripts/Requires.antt =====
-- What is cached at the start, and what `require` finds.
use runtimelua.Common.{
  ◌≡◌, ◌≢◌, refl, ap, ◌∙◌, ◌⊎◌, inl, inr, Option, true, none, some, List, [], ◌∷◌, ◌++◌, Bytes,
  codes, bytes_eq, bytes_eq_refl, arith, Perm, All, length, drop, Bool-cases, Sum-cases,
}
use mathlib.Core.List.{append-nil}
use runtimelua.Common.Text.{
  has_prefix, has_suffix, trim_prefix, trim_suffix, replace_byte, split_byte,
}
use runtimelua.Event.Object.{FileCache}
use runtimelua.Scripts.Registry.{ScriptModule, get, add, get-add}
use runtimelua.Scripts.Listing.{IsRegistry, add-IsRegistry}
use runtimelua.Scripts.Watch.{module_name, file_cache}
use runtimelua.Scripts.Loader.{
  is_lua, scanned, halted, scan_file, scan_loop, candidate, search, loaded, finish_load,
  loader_cache,
}

module _ (sort : List Bytes → List Bytes) (rel : Bytes → Bytes)
    (read_file : Bytes → Bytes ⊎ Bytes) where
  -- What a round does to the cache: nothing, or one `add`.
  Scan-cases :
      (path : Bytes) (sm : ScriptModule)
      → (scan_file sort rel read_file path sm ≡ scanned sm)
        ⊎ ((scan_file sort rel read_file path sm ≡ halted sm)
            ⊎ ((content : Bytes) × (scan_file sort rel read_file path sm
                  ≡ scanned (add sort (file_cache (module_name rel path) path content) sm))))
  unfolding scan_file
  Scan-cases path sm = elim (Bool-cases (is_lua path)) [
    | inr other ↦ inl (rw other refl)
    | inl lua ↦ elim (Sum-cases (read_file path)) [
      | inl (e, bad) ↦ inr (inl (rw (lua, bad) refl))
      | inr (content, good) ↦ inr (inr (content, rw (lua, good) refl))
    ]
  ]

  -- The loop over the files of the folder keeps the cache in order: each cached script is listed
  -- once, and nothing else is. That holds where it breaks on a file that it cannot read, too.
  pub scan_loop-IsRegistry :
      ((xs : List Bytes) → Perm (sort xs) xs)
      → (paths : List Bytes) (sm : ScriptModule) → IsRegistry sm
      → IsRegistry (scan_loop sort rel read_file paths sm)
  unfolding scan_loop
  scan_loop-IsRegistry perm [] sm r = r
  scan_loop-IsRegistry perm (path ∷ paths) sm r = elim (Scan-cases path sm) [
    | inl e ↦ rw (e, scan_loop) (scan_loop-IsRegistry perm paths sm r)
    | inr (inl e) ↦ rw (e, scan_loop) r
    | inr (inr (content, e)) ↦
        rw (e, scan_loop)
          (scan_loop-IsRegistry perm paths _
            (add-IsRegistry sort perm (file_cache (module_name rel path) path content) sm r))
  ]

  kept_by_add :
      (m : FileCache) (sm : ScriptModule) (name : Bytes)
      → get name sm ≢ none
      → get name (add sort m sm) ≢ none
  kept_by_add m sm name h gone = h (elim (Bool-cases (bytes_eq m.name name)) [
    | inl e ↦ absurd (ground (arith, get-add sort m sm name, e, gone))
    | inr e ↦ ground (arith, get-add sort m sm name, e, gone)
  ])

  kept_by_scan :
      (paths : List Bytes) (sm : ScriptModule) (name : Bytes)
      → get name sm ≢ none
      → get name (scan_loop sort rel read_file paths sm) ≢ none
  unfolding scan_loop
  kept_by_scan [] sm name h = h
  kept_by_scan (path ∷ paths) sm name h = elim (Scan-cases path sm) [
    | inl e ↦ rw (e, scan_loop) (kept_by_scan paths sm name h)
    | inr (inl e) ↦ rw (e, scan_loop) h
    | inr (inr (content, e)) ↦
        rw (e, scan_loop) (kept_by_scan paths _ name (kept_by_add _ sm name h))
  ]

  -- The files of a list that can be read.
  abbrev pub IsReadable : List Bytes → Type 0
  IsReadable = All (λ path. (content : Bytes) × (read_file path ≡ inr content))

  pub scans :
      (path content : Bytes) (sm : ScriptModule)
      → is_lua path ≡ true
      → read_file path ≡ inr content
      → scan_file sort rel read_file path sm
        ≡ scanned (add sort (file_cache (module_name rel path) path content) sm)
  unfolding scan_file
  scans path content sm lua good = rw (lua, good) refl

  not_halted :
      (path : Bytes) (sm : ScriptModule)
      → (c : Bytes) × (read_file path ≡ inr c)
      → scan_file sort rel read_file path sm ≢ halted sm
  unfolding scan_file
  not_halted path sm (c, good) e = elim (Bool-cases (is_lua path)) [
    | inl lua ↦ ground (arith, e, lua, good)
    | inr other ↦ ground (arith, e, other)
  ]

  -- If the files up to a Lua file of the folder can be read, and it can, its module is cached in the
  -- end under its name.
  pub scan_loop_finds :
      (pre post : List Bytes) (path content : Bytes) (sm : ScriptModule)
      → IsReadable pre
      → is_lua path ≡ true
      → read_file path ≡ inr content
      → get (module_name rel path) (scan_loop sort rel read_file (pre ++ (path ∷ post)) sm) ≢ none
  unfolding scan_loop file_cache
  scan_loop_finds [] post path content sm ok lua good =
      let m = file_cache (module_name rel path) path content in
      rw (scans path content sm lua good, scan_loop)
        (kept_by_scan post (add sort m sm) (module_name rel path) (added m))
    where
      added : (m : FileCache) → get m.name (add sort m sm) ≢ none
      added m gone = ground (arith, get-add sort m sm m.name, bytes_eq_refl m.name, gone)
  scan_loop_finds (p ∷ pre) post path content sm ok lua good = elim (Scan-cases p sm) [
    | inl e ↦ rw (e, scan_loop) (scan_loop_finds pre post path content sm ok.1 lua good)
    | inr (inl e) ↦ absurd (halts e)
    | inr (inr (c, e)) ↦ rw (e, scan_loop) (scan_loop_finds pre post path content _ ok.1 lua good)
  ]
    where
      halts : scan_file sort rel read_file p sm ≡ halted sm → ⊥
      halts e = not_halted p sm ok.0 e

has_prefix-append : (p s : Bytes) → has_prefix (p ++ s) p ≡ true
unfolding has_prefix
has_prefix-append [] [] = refl
has_prefix-append [] (x ∷ s) = refl
has_prefix-append (x ∷ p) s = ground (arith, has_prefix-append p s)

drop_prefix : (p s : Bytes) → drop (length p) (p ++ s) ≡ s
drop_prefix [] s = refl
drop_prefix (x ∷ p) s = drop_prefix p s

trim_prefix-append : (p s : Bytes) → trim_prefix (p ++ s) p ≡ s
unfolding trim_prefix
trim_prefix-append p s = rw (has_prefix-append p s) (drop_prefix p s)

template_name :
    (name : Bytes) → replace_byte (trim_suffix (codes "?.lua") (codes ".lua")) b'?' name ≡ name
unfolding replace_byte trim_suffix has_suffix bytes_eq
template_name name = append-nil name

-- The template `<dir>?.lua` gives the name itself, with dots for slashes.
candidate_lem :
    (dir name : Bytes)
    → candidate dir name (dir ++ codes "?.lua") ≡ replace_byte name b'/' (codes ".")
unfolding candidate
candidate_lem dir name =
    ap (λ t. replace_byte (replace_byte (trim_suffix t (codes ".lua")) b'?' name) b'/' (codes "."))
      (trim_prefix-append dir (codes "?.lua"))
    ∙ ap (λ t. replace_byte t b'/' (codes ".")) (template_name name)

-- A script that is cached under the required name, with dots for slashes, is what the loader of
-- cached scripts compiles, if the search path holds the template `<dir>?.lua` and no template
-- before it names a cached script.
pub loader_finds :
    (compile : Bytes → Bytes → Option Bytes) (dir path_default name : Bytes) (sm : ScriptModule)
    (pre post : List Bytes) (m : FileCache)
    → split_byte path_default b';' ≡ pre ++ ((dir ++ codes "?.lua") ∷ post)
    → All (λ t. get (candidate dir name t) sm ≡ none) pre
    → get (replace_byte name b'/' (codes ".")) sm ≡ some m
    → compile m.path m.content ≡ none
    → loader_cache compile dir path_default sm name ≡ loaded m
unfolding loader_cache finish_load search
loader_finds compile dir path_default name sm pre post m split misses hit fine =
    ap (finish_load compile name) (ap (search dir name sm) split ∙ found pre misses)
    ∙ rw (fine, finish_load) refl
  where
    found :
        (ts : List Bytes)
        → All (λ t. get (candidate dir name t) sm ≡ none) ts
        → search dir name sm (ts ++ ((dir ++ codes "?.lua") ∷ post)) ≡ some m
    found [] h = rw (ap (λ n. get n sm) (candidate_lem dir name) ∙ hit, search) refl
    found (t ∷ ts) h = rw (h.0, search) (found ts h.1)
