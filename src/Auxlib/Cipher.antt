-- ===== src/Auxlib/Cipher.antt =====
-- The padding of a text, and what comes back of an encrypted text.
use runtimelua.Common.{
  ℕ, zero, suc, ◌-◌, ◌%◌, ◌<◌, ◌≡◌, refl, ap, sym, ◌∙◌, ◌⊎◌, inl, inr, true, false, none, some,
  some_inj, codes, bytes_eq, List, [], ◌∷◌, ◌++◌, Bytes, arith, length, length-append, take, drop,
  replicate, ◌==◌, Bool-cases, Option-cases, Sum-cases,
}
use mathlib.Core.List.{append-nil}
use runtimelua.Lua.{LValue}
use runtimelua.Scripts.Registry.{lookup}
use runtimelua.Auxlib.Aes.{
  Crypto, Result, pushed, block_size, is_empty, pad, with_arguments, encrypt, decrypt, aes_encrypt,
  aes_decrypt, Function, ase256_encrypt, aes256_decrypt, ase128_encrypt, ase128_decrypt,
  ase256_funcs, ase128_funcs,
}

length-replicate : {A : Type 0} (n : ℕ) (a : A) → length (replicate n a) ≡ n
length-replicate zero a = refl
length-replicate (suc n) a = ap suc (length-replicate n a)

take-append : {A : Type 0} (xs ys : List A) → take (length xs) (xs ++ ys) ≡ xs
take-append [] ys = refl
take-append (x ∷ xs) ys = ap (◌∷◌ x) (take-append xs ys)

drop-append : {A : Type 0} (xs ys : List A) → drop (length xs) (xs ++ ys) ≡ ys
drop-append [] ys = refl
drop-append (x ∷ xs) ys = drop-append xs ys

-- A text is padded with fewer than four spaces at its end, to a length that four divides.
pub pad_lem :
    (input : Bytes)
    → (n : ℕ) × (n < 4) × (pad input ≡ input ++ replicate n b' ') × (length (pad input) % 4 ≡ 0)
unfolding pad
pad_lem input = elim (Bool-cases (length input % 4 == 0)) [
  | inl e ↦ (0, omega arith, rw e (sym (append-nil input)), rw e (ground (arith, e)))
  | inr e ↦ (
    4 - length input % 4,
    ground (arith, e),
    rw e refl,
    rw e (
        ground (
          arith,
          e,
          length-append input (replicate (4 - length input % 4) b' '),
          length-replicate {A = ℕ} (4 - length input % 4) b' ',
        )),
  )
]

-- What is documented of the random source and of CFB mode.
pub record CryptoLaws (c : Crypto) : Type 0 where
  pub iv_length : (iv : Bytes) → c.random_iv ≡ inr iv → length iv ≡ block_size
  pub inverse :
      (key iv text : Bytes)
      → length iv ≡ block_size
      → c.cfb_decrypt key iv (c.cfb_encrypt key iv text) ≡ text

-- Arguments that pass the checks.
pub record IsCall (c : Crypto) (key_size : ℕ) (args : List LValue) (input key : Bytes)
    : Type 0 where
  pub has_input : c.check_string 1 args ≡ some input
  pub has_key : c.check_string 2 args ≡ some key
  pub not_empty : is_empty input ≡ false
  pub right_size : (length key == key_size) ≡ true

with_arguments_goes :
    (c : Crypto) (key_size : ℕ) (args : List LValue) (input key : Bytes)
    (run : Bytes → Bytes → Result)
    → IsCall c key_size args input key
    → with_arguments c key_size args run ≡ run input key
unfolding with_arguments
with_arguments_goes c key_size args input key run i =
    rw (i.has_input, with_arguments) (rw (i.not_empty, i.has_key) (rw i.right_size refl))

-- A text that was encrypted.
encrypt-eq_pushed :
    (c : Crypto) (input key out : Bytes)
    → encrypt c input key ≡ pushed out
    → (iv : Bytes) × (c.random_iv ≡ inr iv)
      × (c.new_cipher key ≡ none)
      × (out ≡ iv ++ c.cfb_encrypt key iv (pad input))
unfolding encrypt
encrypt-eq_pushed c input key out h = elim (Option-cases (c.new_cipher key)) [
  | inr (e, bad) ↦ absurd (ground (arith, h, bad))
  | inl good ↦ elim (Sum-cases c.random_iv) [
    | inl (e, bad) ↦ absurd (ground (arith, h, good, bad))
    | inr (iv, drawn) ↦ (iv, drawn, good, ground (arith, h, good, drawn))
  ]
]

decrypt_goes :
    (c : Crypto) (key iv text : Bytes)
    → length iv ≡ block_size
    → c.new_cipher key ≡ none
    → decrypt c (iv ++ text) key ≡ pushed (c.cfb_decrypt key iv text)
unfolding decrypt
decrypt_goes c key iv text size good =
    let before : take block_size (iv ++ text) ≡ iv =
      ap (λ n. take n (iv ++ text)) (sym size) ∙ take-append iv text in
    let behind : drop block_size (iv ++ text) ≡ text =
      ap (λ n. drop n (iv ++ text)) (sym size) ∙ drop-append iv text in
    ground (arith, length-append iv text, size, good, before, behind)

-- What `encrypt` of a module gives, `decrypt` of the module with the same key turns back into the
-- text with its padding, for both sizes of a key.
pub aes_decrypt-aes_encrypt :
    (c : Crypto) (laws : CryptoLaws c) (key_size : ℕ) (args back : List LValue)
    (input key out : Bytes)
    → IsCall c key_size args input key
    → aes_encrypt c key_size args ≡ pushed out
    → c.check_string 1 back ≡ some out
    → c.check_string 2 back ≡ some key
    → aes_decrypt c key_size back ≡ pushed (pad input)
unfolding aes_encrypt aes_decrypt
aes_decrypt-aes_encrypt c laws key_size args back input key out i h has_out has_key =
    let (iv, drawn, good, is) =
      encrypt-eq_pushed c input key out
        (sym (with_arguments_goes c key_size args input key (encrypt c) i) ∙ h) in
    let size = laws.iv_length iv drawn in
    with_arguments_goes c key_size back out key (decrypt c) (record {
      has_input = has_out;
      has_key = has_key;
      not_empty = ap is_empty is ∙ not_empty iv (c.cfb_encrypt key iv (pad input)) size;
      right_size = i.right_size;
    })
    ∙ ap (λ x. decrypt c x key) is
    ∙ decrypt_goes c key iv (c.cfb_encrypt key iv (pad input)) size good
    ∙ ap pushed (laws.inverse key iv (pad input) size)
  where
    not_empty : (iv text : Bytes) → length iv ≡ block_size → is_empty (iv ++ text) ≡ false
    not_empty [] text e = absurd (omega (arith, e))
    not_empty (b ∷ bs) text e = refl

-- The tables of the two libraries, with the sizes of their keys.
abbrev pub IsLibrary : List (Bytes × Function) → ℕ → Type 0
IsLibrary funcs size =
    ((funcs ≡ ase256_funcs) × (size ≡ 32)) ⊎ ((funcs ≡ ase128_funcs) × (size ≡ 16))

looked_up :
    (name : Bytes) {funcs table : List (Bytes × Function)} (f : Function) {g : Function}
    → funcs ≡ table
    → lookup name funcs ≡ some f
    → lookup name table ≡ some g
    → f ≡ g
looked_up name f is h k = some_inj (sym h ∙ ap (lookup name) is ∙ k)

library_calls :
    (funcs : List (Bytes × Function)) (size : ℕ) (f g : Function)
    → IsLibrary funcs size
    → lookup (codes "encrypt") funcs ≡ some f
    → lookup (codes "decrypt") funcs ≡ some g
    → (f ≡ (λ c args. aes_encrypt c size args)) × (g ≡ (λ c args. aes_decrypt c size args))
unfolding lookup bytes_eq ase256_funcs ase128_funcs ase256_encrypt aes256_decrypt ase128_encrypt
    ase128_decrypt
library_calls funcs size f g (inl (is, big)) h k = (
  looked_up (codes "encrypt") f is h refl ∙ ap (λ n c args. aes_encrypt c n args) (sym big),
  looked_up (codes "decrypt") g is k refl ∙ ap (λ n c args. aes_decrypt c n args) (sym big),
)
library_calls funcs size f g (inr (is, small)) h k = (
  looked_up (codes "encrypt") f is h refl ∙ ap (λ n c args. aes_encrypt c n args) (sym small),
  looked_up (codes "decrypt") g is k refl ∙ ap (λ n c args. aes_decrypt c n args) (sym small),
)

-- In the library of keys of 32 bytes and in that of keys of 16: what the function named encrypt
-- pushes, for arguments that pass its checks, the function named decrypt of the same library turns
-- back, with the same key, into the text with its padding; given that the initial vector has 16
-- bytes, and that CFB decryption undoes CFB encryption.
pub library_roundtrip :
    (c : Crypto) (laws : CryptoLaws c) (funcs : List (Bytes × Function)) (size : ℕ) (f g : Function)
    (args back : List LValue) (input key out : Bytes)
    → IsLibrary funcs size
    → lookup (codes "encrypt") funcs ≡ some f
    → lookup (codes "decrypt") funcs ≡ some g
    → IsCall c size args input key
    → f c args ≡ pushed out
    → c.check_string 1 back ≡ some out
    → c.check_string 2 back ≡ some key
    → g c back ≡ pushed (pad input)
library_roundtrip c laws funcs size f g args back input key out lib enc dec i h has_out has_key =
    let (is_f, is_g) = library_calls funcs size f g lib enc dec in
    ap (λ k. k c back) is_g
    ∙ aes_decrypt-aes_encrypt c laws size args back input key out i
        (ap (λ k. k c args) (sym is_f) ∙ h) has_out has_key
