-- ===== src/Auxlib/Aes.antt =====
-- auxlib/aes.go: the functions of the modules `ase128` and `ase256`.
use runtimelua.Common.{
  ℕ, ◌-◌, ◌%◌, ◌⊎◌, inl, inr, Bool, true, false, not, Option, none, some, List, [], ◌∷◌, ◌++◌,
  Bytes, codes, ltb, ◌==◌, if◌then◌else◌, length, take, drop, replicate,
}
use runtimelua.Lua.{LValue}

-- What the functions call: the check of gopher-lua for a string argument, whose `none` is an error
-- that it raises; `aes.NewCipher`, which may refuse a key; 16 bytes of `rand.Reader`, or an error;
-- and the key stream of CFB mode over a key, an initial vector and a text.
pub record Crypto : Type 0 where
  pub check_string : ℕ → List LValue → Option Bytes
  pub new_cipher : Bytes → Option Bytes
  pub random_iv : Bytes ⊎ Bytes
  pub cfb_encrypt : Bytes → Bytes → Bytes → Bytes
  pub cfb_decrypt : Bytes → Bytes → Bytes → Bytes

-- How a call ends: with a string, with an error about an argument, with an error that it raises, or
-- with one that the check of an argument raises.
pub data Result : Type 0 where
  pushed : Bytes → Result
  arg_error : ℕ → Result
  raised : Bytes → Result
  type_error : ℕ → Result

-- `aes.BlockSize`.
abbrev pub block_size : ℕ
block_size = 16

abbrev pub is_empty : Bytes → Bool
is_empty [] = true
is_empty (b ∷ bs) = false

-- `input += strings.Repeat(" ", 4-maybePad)`.
unfoldable pub pad : Bytes → Bytes
pad input =
    let maybe_pad = length input % 4 in
    if not (maybe_pad == 0) then input ++ replicate (4 - maybe_pad) b' ' else input

-- The checks of the two arguments, which both functions begin with.
unfoldable pub with_arguments : Crypto → ℕ → List LValue → (Bytes → Bytes → Result) → Result
with_arguments c key_size args run = elim (c.check_string 1 args) [
  | none ↦ type_error 1
  | some input ↦ if is_empty input then arg_error 1 else elim (c.check_string 2 args) [
    | none ↦ type_error 2
    | some key ↦ if not (length key == key_size) then arg_error 2 else run input key
  ]
]

-- `aesEncrypt` behind its checks.
unfoldable pub encrypt : Crypto → Bytes → Bytes → Result
unfolding pad
encrypt c input key = elim (c.new_cipher key) [
  | some e ↦ raised (codes "error creating cipher block: " ++ e)
  | none ↦ elim c.random_iv [
    | inl e ↦ raised (codes "error getting iv: " ++ e)
    | inr iv ↦ pushed (iv ++ c.cfb_encrypt key iv (pad input))
  ]
]

-- `aesDecrypt` behind its checks.
unfoldable pub decrypt : Crypto → Bytes → Bytes → Result
decrypt c input key =
    if ltb (length input) block_size
    then raised (codes "input too short")
    else elim (c.new_cipher key) [
      | some e ↦ raised (codes "error creating cipher block: " ++ e)
      | none ↦ pushed (c.cfb_decrypt key (take block_size input) (drop block_size input))
    ]

unfoldable pub aes_encrypt : Crypto → ℕ → List LValue → Result
unfolding with_arguments encrypt
aes_encrypt c key_size args = with_arguments c key_size args (encrypt c)

unfoldable pub aes_decrypt : Crypto → ℕ → List LValue → Result
unfolding with_arguments decrypt
aes_decrypt c key_size args = with_arguments c key_size args (decrypt c)

-- The functions of the two libraries, and the tables that name them.
abbrev pub Function : Type 0
Function = Crypto → List LValue → Result

unfoldable pub ase256_encrypt : Function
ase256_encrypt c args = aes_encrypt c 32 args

unfoldable pub aes256_decrypt : Function
aes256_decrypt c args = aes_decrypt c 32 args

unfoldable pub ase128_encrypt : Function
ase128_encrypt c args = aes_encrypt c 16 args

unfoldable pub ase128_decrypt : Function
ase128_decrypt c args = aes_decrypt c 16 args

unfoldable pub ase256_funcs : List (Bytes × Function)
ase256_funcs = (codes "encrypt", ase256_encrypt) ∷ (codes "decrypt", aes256_decrypt) ∷ []

unfoldable pub ase128_funcs : List (Bytes × Function)
ase128_funcs = (codes "encrypt", ase128_encrypt) ∷ (codes "decrypt", ase128_decrypt) ∷ []
