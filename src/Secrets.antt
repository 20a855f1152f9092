-- ===== src/Secrets.antt =====
-- internal/crypto/crypto.go and internal/secrets/store.go: the encryption of secrets, with versions
-- of keys. Texts are lists of bytes. AES-GCM and base64 are the parameter `Cipher`, with what their
-- packages document as `Documented`. A nonce is what the random source gives, none if it fails.
-- Errors carry no message here.
pub mod Covered
pub mod Recovered
use edgefabric.Prelude.{
  ℕ, zero, suc, ◌≡◌, Bool, true, false, not, ◌&&◌, ◌||◌, ◌==◌, ltb, is_some, Option, none, some,
  List, [], ◌∷◌, ◌++◌, if◌then◌else◌, length, take,
}

abbrev pub Bytes : Type 0
Bytes = List ℕ

-- `valid_key` says that aes.NewCipher and cipher.NewGCM accept the key.
pub record Cipher : Type 0 where
  pub encode : Bytes → Bytes
  pub decode : Bytes → Option Bytes
  pub valid_key : Bytes → Bool
  pub nonce_size : ℕ
  pub seal : Bytes → Bytes → Bytes → Bytes
  pub unseal : Bytes → Bytes → Bytes → Option Bytes

pub record Documented (x : Cipher) : Type 0 where
  pub decode-encode : (b : Bytes) → x.decode (x.encode b) ≡ some b
  pub key_of_32 : (k : Bytes) → length k ≡ 32 → x.valid_key k ≡ true
  pub nonce_of_12 : x.nonce_size ≡ 12
  pub unseal-seal : (k n p : Bytes) → x.unseal k n (x.seal k n p) ≡ some p

abbrev pub drop : ℕ → Bytes → Bytes
drop zero b = b
drop (suc n) [] = []
drop (suc n) (x ∷ b) = drop n b

-- `v, err := …; if err != nil { return err }`
abbrev pub and_then {ℓ} : {A B : Type ℓ} → Option A → (A → Option B) → Option B
and_then none k = none
and_then (some a) k = k a

pub record VersionedKey : Type 0 where
  pub version : ℕ
  pub key : Bytes

pub record Store : Type 0 where
  pub key : Bytes
  pub version : ℕ
  pub ring : List VersionedKey

abbrev pub first_byte : Bytes → Option ℕ
first_byte [] = none
first_byte (v ∷ b) = if v == 0 then none else some v

-- The first key of the ring with the version.
unfoldable pub find_key : ℕ → List VersionedKey → Option Bytes
find_key v [] = none
find_key v (k ∷ ks) = if k.version == v then some k.key else find_key v ks

abbrev pub all_valid : List VersionedKey → Bool
all_valid [] = true
all_valid (k ∷ ks) = (length k.key == 32 && not (k.version == 0)) && all_valid ks

-- `NewVersionedStore`
unfoldable pub new_versioned_store : List VersionedKey → Option Store
new_versioned_store [] = none
new_versioned_store (k ∷ ks) =
    if all_valid (k ∷ ks)
    then some (record { key = k.key; version = k.version; ring = k ∷ ks })
    else none

module _ (x : Cipher) where
  open x use {encode, decode, valid_key, nonce_size, seal, unseal}

  unfoldable pub encrypt_aes_gcm : Option Bytes → Bytes → Bytes → Option Bytes
  encrypt_aes_gcm nonce key plain =
      if not (valid_key key)
      then none
      else and_then nonce (λ n. some (encode (n ++ seal key n plain)))

  unfoldable pub versioned_encrypt : Option Bytes → ℕ → Bytes → Bytes → Option Bytes
  versioned_encrypt nonce version key plain =
      if not (valid_key key)
      then none
      else and_then nonce (λ n. some (encode (version ∷ (n ++ seal key n plain))))

  unfoldable pub decrypt_aes_gcm : Bytes → Bytes → Option Bytes
  decrypt_aes_gcm key encoded = and_then (decode encoded) λ c.
      if not (valid_key key)
      then none
      else if ltb (length c) nonce_size
      then none
      else unseal key (take nonce_size c) (drop nonce_size c)

  unfoldable pub extract_key_version : Bytes → Option ℕ
  extract_key_version encoded = and_then (decode encoded) first_byte

  unfoldable pub decrypt_versioned : Bytes → Bytes → Option Bytes
  decrypt_versioned key encoded =
      and_then (decode encoded)
        λ c. if ltb (length c) 2 then none else decrypt_aes_gcm key (encode (drop 1 c))

  -- `NewStore`
  unfoldable pub new_store : Bytes → Option Store
  new_store encoded =
      and_then (decode encoded) λ key.
        if length key == 32 then some (record { key = key; version = 0; ring = [] }) else none

  unfoldable pub encrypt : Option Bytes → Store → Bytes → Option Bytes
  encrypt nonce s plain =
      if ltb 0 s.version
      then versioned_encrypt nonce s.version s.key plain
      else encrypt_aes_gcm nonce s.key plain

  -- The first phase of `Decrypt`: none where it falls through.
  unfoldable pub try_versioned : Store → Bytes → Option Bytes
  try_versioned s encrypted =
      and_then (extract_key_version encrypted)
        λ v. and_then (find_key v s.ring) λ k. decrypt_versioned k encrypted

  abbrev pub or_legacy : Option Bytes → Store → Bytes → Option Bytes
  or_legacy (some p) s encrypted = some p
  or_legacy none s encrypted = decrypt_aes_gcm s.key encrypted

  unfoldable pub decrypt : Store → Bytes → Option Bytes
  decrypt s encrypted = or_legacy (try_versioned s encrypted) s encrypted

  -- `ver, ok := ExtractKeyVersion(encrypted); ok && ver == s.version`
  abbrev pub is_version : ℕ → Option ℕ → Bool
  is_version v none = false
  is_version v (some w) = w == v

  unfoldable pub re_encrypt : Option Bytes → Store → Bytes → Option (Bytes × Bool)
  re_encrypt nonce s encrypted =
      if ltb 0 s.version && is_version s.version (extract_key_version encrypted)
      then some (encrypted, false)
      else and_then (decrypt s encrypted)
          λ plain. and_then (encrypt nonce s plain) λ c. some (c, true)
