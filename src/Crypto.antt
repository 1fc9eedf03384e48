-- ===== src/Crypto.antt =====
-- source/tbx_crypto.c over the block cipher of source/tbx_aes256.c, which is a parameter.
use microtbx.Base.{
  ℕ, zero, suc, ◌/◌, ◌%◌, Bool, true, false, ◌&&◌, ltb, ◌==◌, if◌then◌else◌, Option, none, some,
  List, ◌++◌, length, take, drop,
}
pub mod RoundTrip

-- The functions `tbx_aes256_init`, `tbx_aes256_encrypt_ecb` and `tbx_aes256_decrypt_ecb`. The last two
-- also write to the context. `tbx_aes256_done` clears the context, which is gone afterwards.
pub record Aes : Type 1 where
  pub Context : Type 0
  pub init : List ℕ → Context
  pub encrypt_ecb : Context → List ℕ → Context × List ℕ
  pub decrypt_ecb : Context → List ℕ → Context × List ℕ

-- TBX_CRYPTO_AES_BLOCK_SIZE
abbrev pub block_size : ℕ
block_size = 16

-- The loop over `n` blocks, with either of the two functions.
unfoldable pub blocks :
    {Context : Type 0} → ℕ → (Context → List ℕ → Context × List ℕ) → Context → List ℕ → List ℕ
blocks zero ecb ctx bytes = bytes
blocks (suc n) ecb ctx bytes =
    let (ctx', block) = ecb ctx (take block_size bytes) in
    block ++ blocks n ecb ctx' (drop block_size bytes)

-- The array after one of the functions, which write in place; NULL is `none`.
unfoldable pub apply :
    (aes : Aes)
    → (aes.Context → List ℕ → aes.Context × List ℕ)
    → Option (List ℕ)
    → Option (List ℕ)
    → Option (List ℕ)
apply aes ecb none key = none
apply aes ecb (some bytes) none = some bytes
apply aes ecb (some bytes) (some key) =
    if ltb 0 (length bytes) && (length bytes % block_size == 0)
    then some (blocks (length bytes / block_size) ecb (aes.init key) bytes)
    else some bytes

-- `TbxCryptoAes256Encrypt`
unfoldable pub encrypt : Aes → (bytes key : Option (List ℕ)) → Option (List ℕ)
encrypt aes bytes key = apply aes aes.encrypt_ecb bytes key

-- `TbxCryptoAes256Decrypt`
unfoldable pub decrypt : Aes → (bytes key : Option (List ℕ)) → Option (List ℕ)
decrypt aes bytes key = apply aes aes.decrypt_ecb bytes key
