-- ===== src/Tests/Aes.antt =====
-- A text that is encrypted and decrypted.
use runtimelua.Common.{
  ◌≡◌, refl, inr, List, [], ◌∷◌, ◌++◌, none, some, Option, Bytes, codes, bytes_eq, arith, ◌==◌,
  if◌then◌else◌,
}
use runtimelua.Lua.{LValue, string}
use runtimelua.Auxlib.Aes.{
  Crypto, pushed, pad, with_arguments, encrypt, aes_encrypt, ase128_encrypt, ase128_decrypt,
  ase128_funcs,
}
use runtimelua.Scripts.Registry.{lookup}
use runtimelua.Auxlib.Cipher.{CryptoLaws, IsCall, library_roundtrip}

abbrev first_string : List LValue → Option Bytes
first_string (string s ∷ rest) = some s
first_string _ = none

abbrev second_string : List LValue → Option Bytes
second_string [] = none
second_string (v ∷ rest) = first_string rest

abbrev iv : Bytes
iv = codes "0123456789abcdef"

-- The key stream is 0.
abbrev crypto : Crypto
crypto = record {
  check_string = λ n args. if n == 1 then first_string args else second_string args;
  new_cipher = λ key. none;
  random_iv = inr iv;
  cfb_encrypt = λ key v text. text;
  cfb_decrypt = λ key v text. text;
}

crypto_laws : CryptoLaws crypto
crypto_laws = record { iv_length = λ v e. ground (arith, e); inverse = λ key v text e. refl }

abbrev call_args : List LValue
call_args = string (codes "hello") ∷ string (codes "0123456789abcdef") ∷ []

abbrev back_args : List LValue
back_args = string (iv ++ codes "hello   ") ∷ string (codes "0123456789abcdef") ∷ []

call : IsCall crypto 16 call_args (codes "hello") (codes "0123456789abcdef")
call = record { has_input = refl; has_key = refl; not_empty = refl; right_size = refl }

encrypted : ase128_encrypt crypto call_args ≡ pushed (iv ++ codes "hello   ")
unfolding ase128_encrypt aes_encrypt with_arguments encrypt pad
encrypted = refl

named_encrypt : lookup (codes "encrypt") ase128_funcs ≡ some ase128_encrypt
unfolding lookup bytes_eq ase128_funcs
named_encrypt = refl

named_decrypt : lookup (codes "decrypt") ase128_funcs ≡ some ase128_decrypt
unfolding lookup bytes_eq ase128_funcs
named_decrypt = refl

library_roundtrip_example : ase128_decrypt crypto back_args ≡ pushed (pad (codes "hello"))
library_roundtrip_example =
    library_roundtrip crypto crypto_laws ase128_funcs 16 ase128_encrypt ase128_decrypt call_args
      back_args (codes "hello") (codes "0123456789abcdef") (iv ++ codes "hello   ")
      (inr (refl, refl)) named_encrypt named_decrypt call encrypted refl refl
