-- ===== src/Crypto/RoundTrip.antt =====
-- source/tbx_crypto.c: decryption after encryption, over a cipher that is sound for one block.
use microtbx.Base.{
  ℕ, zero, suc, ◌*◌, ◌/◌, ◌%◌, ◌≡◌, refl, sym, ap, ◌∙◌, arith, ◌&&◌, ltb, ◌==◌, Option, none, some,
  List, length, length-append, take, drop, take-append, drop-append, append-take-drop, length-take,
  length-drop, Bool-cases, inl, inr,
}
use microtbx.Crypto.{Aes, blocks, apply, encrypt, decrypt}

-- What the cipher promises: a context stays one for its key, and with two contexts for one key,
-- decrypting an encrypted block of 16 bytes gives it back. Encrypted, it has 16 bytes again.
pub record IsAes (aes : Aes) : Type 1 where
  pub ForKey : List ℕ → aes.Context → Type 0
  pub init-ForKey : (key : List ℕ) → ForKey key (aes.init key)
  pub encrypt-ForKey :
      (key : List ℕ) (ctx : aes.Context) (block : List ℕ)
      → ForKey key ctx
      → ForKey key (aes.encrypt_ecb ctx block).0
  pub decrypt-ForKey :
      (key : List ℕ) (ctx : aes.Context) (block : List ℕ)
      → ForKey key ctx
      → ForKey key (aes.decrypt_ecb ctx block).0
  pub length-encrypt :
      (key : List ℕ) (ctx : aes.Context) (block : List ℕ)
      → ForKey key ctx
      → length block ≡ 16
      → length (aes.encrypt_ecb ctx block).1 ≡ 16
  pub decrypt-encrypt :
      (key : List ℕ) (ctx ctx' : aes.Context) (block : List ℕ)
      → ForKey key ctx
      → ForKey key ctx'
      → length block ≡ 16
      → (aes.decrypt_ecb ctx' (aes.encrypt_ecb ctx block).1).1 ≡ block

module _ (aes : Aes) (is : IsAes aes) (key : List ℕ) where
  length-blocks :
      (n : ℕ) (ctx : aes.Context) (bytes : List ℕ)
      → is.ForKey key ctx
      → length bytes ≡ n * 16
      → length (blocks n aes.encrypt_ecb ctx bytes) ≡ n * 16
  unfolding blocks
  length-blocks zero ctx bytes k e = e
  length-blocks (suc n) ctx bytes k e =
      let block = length-take 16 bytes (omega (arith, e)) in
      let rest = length-drop 16 bytes in
      length-append (aes.encrypt_ecb ctx (take 16 bytes)).1
        (blocks n aes.encrypt_ecb (aes.encrypt_ecb ctx (take 16 bytes)).0 (drop 16 bytes))
      ∙ omega (
        arith,
        is.length-encrypt key ctx (take 16 bytes) k block,
        length-blocks n (aes.encrypt_ecb ctx (take 16 bytes)).0 (drop 16 bytes)
            (is.encrypt-ForKey key ctx (take 16 bytes) k) (omega (arith, rest, e)),
      )

  blocks-blocks :
      (n : ℕ) (ctx ctx' : aes.Context) (bytes : List ℕ)
      → is.ForKey key ctx
      → is.ForKey key ctx'
      → length bytes ≡ n * 16
      → blocks n aes.decrypt_ecb ctx' (blocks n aes.encrypt_ecb ctx bytes) ≡ bytes
  unfolding blocks
  blocks-blocks zero ctx ctx' bytes k k' e = refl
  blocks-blocks (suc n) ctx ctx' bytes k k' e =
      let block = length-take 16 bytes (omega (arith, e)) in
      let made = is.length-encrypt key ctx (take 16 bytes) k block in
      let c = (aes.encrypt_ecb ctx (take 16 bytes)).1 in
      let later =
        blocks n aes.encrypt_ecb (aes.encrypt_ecb ctx (take 16 bytes)).0 (drop 16 bytes) in
      let next =
        blocks-blocks n (aes.encrypt_ecb ctx (take 16 bytes)).0 (aes.decrypt_ecb ctx' c).0
          (drop 16 bytes) (is.encrypt-ForKey key ctx (take 16 bytes) k)
          (is.decrypt-ForKey key ctx' c k') (omega (arith, length-drop 16 bytes, e)) in
      rw
        (
          take-append 16 c later made,
          drop-append 16 c later made,
          is.decrypt-encrypt key ctx ctx' (take 16 bytes) k k' block,
          next,
        )
        (append-take-drop 16 bytes)

-- Decryption undoes encryption for any array and any key, NULL included. (An array that is not of
-- whole blocks is left alone by both.)
pub decrypt-encrypt :
    (aes : Aes)
    → IsAes aes
    → (bytes key : Option (List ℕ)) → decrypt aes (encrypt aes bytes key) key ≡ bytes
unfolding decrypt encrypt apply
decrypt-encrypt aes is none key = refl
decrypt-encrypt aes is (some bytes) none = refl
decrypt-encrypt aes is (some bytes) (some key) =
    elim (Bool-cases (ltb 0 (length bytes) && (length bytes % 16 == 0))) [
      | inr part ↦ rw (part, part) refl
      | inl full ↦
          let whole : length bytes ≡ length bytes / 16 * 16 = ground (arith, full) in
          let same : length (blocks (length bytes / 16) aes.encrypt_ecb (aes.init key) bytes)
              ≡ length bytes =
            length-blocks aes is key (length bytes / 16) (aes.init key) bytes (is.init-ForKey key)
              whole
            ∙ sym whole in
          rw (full, same, full)
            (ap some (
              blocks-blocks aes is key (length bytes / 16) (aes.init key) (aes.init key) bytes
                (is.init-ForKey key) (is.init-ForKey key) whole))
    ]
