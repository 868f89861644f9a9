-- ===== src/Http/Prepare.antt =====
-- The checks of `request` and `request_async` of module_http.go: which arguments they let through.
use runtimelua.Common.{
  ℕ, ◌+◌, ◌≡◌, ◌≢◌, refl, sym, ap, ◌∙◌, arith, Bool, true, false, not, ◌⊎◌, inl, inr, Option, none,
  some, List, [], ◌∷◌, map, Bytes, bytes_eq, bytes_eq_iff, Option-cases, some_inj,
}
use runtimelua.Common.Text.{to_upper}
use runtimelua.Common.Word.{mul64}
use runtimelua.Lua.{LValue, Entries}
use runtimelua.Luaconv.Convert.{GoValue, gstring, go_table}
use runtimelua.Http.Body.{Headers}
use runtimelua.Http.Request.{
  Request, Outer, Failure, type_error, arg_error, raised, checked, unless, is_method, timeout_ms,
  request_body, add_headers, not_strings, build, prepare,
}

-- The arguments from `i` on ask for the request `q`: a URL that is not empty, one of the six methods
-- in any case, a table of which all values are strings, a body and a timeout; and net/http takes them.
abbrev pub Asks : Outer → ℕ → List LValue → Request → Type 0
Asks o i args q =
    (url method body : Bytes) × (es : Entries) × (t : ℕ) × (hs : Headers) × ((o.check_string i args
        ≡ some url)
      × (o.check_string (i + 1) args ≡ some method)
      × (o.check_table (i + 2) args ≡ some es)
      × (o.opt_string (i + 3) [] args ≡ some body)
      × (o.opt_int64 (i + 4) 5000 args ≡ some t))
    × ((url ≢ [])
        × (is_method (to_upper method) ≡ true)
        × (o.bad_request (to_upper method) url ≡ none))
    × (o.ranged (go_table o.api es) ≡ map (λ h. (h.0, gstring h.1)) hs)
    × (q ≡ record {
      method = to_upper method;
      url = url;
      body = request_body body;
      timeout = mul64 (timeout_ms t) 1000000;
      headers = hs;
    })

checked-inr :
    {A : Type 0} (e : Failure) (x : Option A) (rest : A → Failure ⊎ Request) (q : Request)
    → checked e x rest ≡ inr q
    → (a : A) × (x ≡ some a) × (rest a ≡ inr q)
unfolding checked
checked-inr e none rest q h = absurd (ground (arith, h))
checked-inr e (some a) rest q h = (a, refl, h)

unless-inr :
    (e : Failure) (ok : Bool) (rest : Failure ⊎ Request) (q : Request)
    → unless e ok rest ≡ inr q
    → (ok ≡ true) × (rest ≡ inr q)
unfolding unless
unless-inr e true rest q h = (refl, h)
unless-inr e false rest q h = absurd (ground (arith, h))

add_headers-some :
    (vs : List (Bytes × GoValue)) (hs : Headers)
    → add_headers vs ≡ some hs
    → vs ≡ map (λ h. (h.0, gstring h.1)) hs
unfolding add_headers
add_headers-some [] hs h = ground (arith, h)
add_headers-some ((k, gstring v) ∷ rest) hs h = elim (Option-cases (add_headers rest)) [
  | inl bad ↦ absurd (ground (arith, h, bad))
  | inr (js, good) ↦ ground (arith, h, good, add_headers-some rest js good)
]
add_headers-some ((k, v) ∷ rest) hs h = absurd (ground (arith, h))

add_headers_lem : (hs : Headers) → add_headers (map (λ h. (h.0, gstring h.1)) hs) ≡ some hs
unfolding add_headers
add_headers_lem [] = refl
add_headers_lem ((k, v) ∷ hs) = rw (add_headers_lem hs) refl

build-inr :
    (o : Outer) (url method : Bytes) (es : Entries) (body : Bytes) (t : ℕ) (q : Request)
    → build o url method es body t ≡ inr q
    → (o.bad_request method url ≡ none)
      × (hs : Headers) × (add_headers (o.ranged (go_table o.api es)) ≡ some hs)
      × (q ≡ record {
        method = method;
        url = url;
        body = request_body body;
        timeout = mul64 (timeout_ms t) 1000000;
        headers = hs;
      })
unfolding build
build-inr o url method es body t q h = elim (Option-cases (o.bad_request method url)) [
  | inr (e, bad) ↦ absurd (ground (arith, h, bad))
  | inl good ↦
      let (hs, is, same) =
        checked-inr (raised not_strings) (add_headers (o.ranged (go_table o.api es))) _ q
          (rw (build, good) at h) in
      (good, hs, is, ground (arith, same))
]

named : (url : Bytes) → not (bytes_eq url []) ≡ true → url ≢ []
named [] h e = ground (arith, h, bytes_eq_iff [] [])
named (b ∷ url) h e = ground (arith, e)

pub prepare-inr :
    (o : Outer) (i : ℕ) (args : List LValue) (q : Request)
    → prepare o i args ≡ inr q
    → Asks o i args q
unfolding prepare
prepare-inr o i args q h =
    let (url, at1, h1) = checked-inr (type_error i) (o.check_string i args) _ q h in
    let (method, at2, h2) = checked-inr (type_error (i + 1)) (o.check_string (i + 1) args) _ q h1 in
    let (es, at3, h3) = checked-inr (type_error (i + 2)) (o.check_table (i + 2) args) _ q h2 in
    let (body, at4, h4) = checked-inr (type_error (i + 3)) (o.opt_string (i + 3) [] args) _ q h3 in
    let (some_url, h5) = unless-inr (arg_error i) (not (bytes_eq url [])) _ q h4 in
    let (good, h6) = unless-inr (arg_error (i + 1)) (is_method (to_upper method)) _ q h5 in
    let (t, at5, h7) = checked-inr (type_error (i + 4)) (o.opt_int64 (i + 4) 5000 args) _ q h6 in
    let (taken, hs, added, is) = build-inr o url (to_upper method) es body t q h7 in
    (
      url,
      method,
      body,
      es,
      t,
      hs,
      (at1, at2, at3, at4, at5),
      (named url some_url, good, taken),
      add_headers-some _ hs added,
      is,
    )

checked-some :
    {A : Type 0} (e : Failure) (x : Option A) (rest : A → Failure ⊎ Request) (q : Request) (a : A)
    → x ≡ some a
    → rest a ≡ inr q
    → checked e x rest ≡ inr q
unfolding checked
checked-some e none rest q a h is = absurd (ground (arith, h))
checked-some e (some b) rest q a h is = ap rest (some_inj h) ∙ is

unless-true :
    (e : Failure) (ok : Bool) (rest : Failure ⊎ Request) (q : Request)
    → ok ≡ true
    → rest ≡ inr q
    → unless e ok rest ≡ inr q
unfolding unless
unless-true e true rest q h is = is
unless-true e false rest q h is = absurd (ground (arith, h))

build_lem :
    (o : Outer) (url method : Bytes) (es : Entries) (body : Bytes) (t : ℕ) (hs : Headers)
    → o.bad_request method url ≡ none
    → o.ranged (go_table o.api es) ≡ map (λ h. (h.0, gstring h.1)) hs
    → build o url method es body t
      ≡ inr (record {
        method = method;
        url = url;
        body = request_body body;
        timeout = mul64 (timeout_ms t) 1000000;
        headers = hs;
      })
unfolding build
build_lem o url method es body t hs taken all_strings =
    rw (build, taken)
      (checked-some (raised not_strings) (add_headers (o.ranged (go_table o.api es))) _ _ hs
        (ap add_headers all_strings ∙ add_headers_lem hs) refl)

named-not : (url : Bytes) → url ≢ [] → not (bytes_eq url []) ≡ true
unfolding bytes_eq
named-not [] h = absurd (h refl)
named-not (b ∷ url) h = refl

pub prepare_lem :
    (o : Outer) (i : ℕ) (args : List LValue) (q : Request)
    → Asks o i args q
    → prepare o i args ≡ inr q
unfolding prepare
prepare_lem o i args q
      (
        url,
        method,
        body,
        es,
        t,
        hs,
        (at1, at2, at3, at4, at5),
        (some_url, good, taken),
        all_strings,
        is,
      ) =
    checked-some _ _ _ q url at1 (
      checked-some _ _ _ q method at2 (
        checked-some _ _ _ q es at3 (
          checked-some _ _ _ q body at4 (
            unless-true _ _ _ q (named-not url some_url) (
              unless-true _ _ _ q good (
                checked-some _ _ _ q t at5 (
                  build_lem o url (to_upper method) es body t hs taken all_strings
                  ∙ ap inr (sym is))))))))
