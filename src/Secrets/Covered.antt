-- ===== src/Secrets/Covered.antt =====
-- Stores with usable keys, and the keys of an earlier store that a later one covers.
use edgefabric.Prelude.{
  ℕ, suc, ◌≡◌, refl, ap, subst, ◌∙◌, inl, inr, Bool, Bool-cases, true, false, ◌==◌, ltb, Option,
  none, some, List, [], ◌∷◌, ◌++◌, if◌then◌else◌, length, take, arith,
}
use edgefabric.Secrets.{
  Bytes, Cipher, Documented, VersionedKey, Store, drop, and_then, find_key, all_valid,
  new_versioned_store, encrypt_aes_gcm, versioned_encrypt, decrypt_aes_gcm, extract_key_version,
  decrypt_versioned, encrypt, try_versioned, decrypt, or_legacy,
}

take_front : (a b : Bytes) → take (length a) (a ++ b) ≡ a
take_front [] [] = refl
take_front [] (y ∷ b) = refl
take_front (x ∷ a) b = ap (◌∷◌ x) (take_front a b)

drop_front : (a b : Bytes) → drop (length a) (a ++ b) ≡ b
drop_front [] b = refl
drop_front (x ∷ a) b = drop_front a b

long_enough : (a b : Bytes) → ltb (length (a ++ b)) (length a) ≡ false
long_enough [] b = ground arith
long_enough (x ∷ a) b = ground (arith, long_enough a b)

-- The later store has the key of the earlier one, under the earlier one's version.
pub record Covers (s later : Store) : Type 0 where
  pub versioned : ltb 0 s.version ≡ true → find_key s.version later.ring ≡ some s.key
  pub legacy : ltb 0 s.version ≡ false → (later.ring ≡ []) × (later.key ≡ s.key)

abbrev pub Usable : Store → Type 0
Usable s = (length s.key ≡ 32) × Covers s s

all_valid_first :
    (k : VersionedKey) (ks : List VersionedKey)
    → all_valid (k ∷ ks) ≡ true
    → (length k.key ≡ 32) × (ltb 0 k.version ≡ true)
all_valid_first k ks h = ground arith

abbrev FromKeys : List VersionedKey → Store → Type 0
FromKeys ks s =
    Usable s × (ltb 0 s.version ≡ true) × (find_key s.version ks ≡ some s.key) × (s.ring ≡ ks)

pub store_if :
    (P : Store → Type 0) (b : Bool) (r s : Store)
    → (b ≡ true → P r)
    → (if b then some r else none) ≡ some s
    → P s
store_if P true r s p h = subst P (same h) (p refl)
  where
    same : some r ≡ some s → r ≡ s
    same e = cc
store_if P false r s p h = cc

pub new_versioned_store-FromKeys :
    (ks : List VersionedKey) (s : Store) → new_versioned_store ks ≡ some s → FromKeys ks s
unfolding new_versioned_store
new_versioned_store-FromKeys [] s h = cc
new_versioned_store-FromKeys (k ∷ ks) s h =
    let r : Store = record { key = k.key; version = k.version; ring = k ∷ ks } in
    store_if (FromKeys (k ∷ ks)) (all_valid (k ∷ ks)) r s (λ e. made e) h
  where
    found : find_key k.version (k ∷ ks) ≡ some k.key
    found = unfold find_key in first k.version
      where
        first : (v : ℕ) → (if v == v then some k.key else find_key v ks) ≡ some k.key
        first v = ground arith

    made :
        all_valid (k ∷ ks) ≡ true
        → FromKeys (k ∷ ks) (record { key = k.key; version = k.version; ring = k ∷ ks })
    made e =
        let (size, some_version) = all_valid_first k ks e in
        ((size, record { versioned = λ v. found; legacy = λ v. cc }), some_version, found, refl)

module _ (x : Cipher) (law : Documented x) where
  decrypt-encrypt_aes_gcm :
      (key nonce plain : Bytes)
      → length key ≡ 32
      → length nonce ≡ x.nonce_size
      → decrypt_aes_gcm x key (x.encode (nonce ++ x.seal key nonce plain)) ≡ some plain
  unfolding decrypt_aes_gcm
  decrypt-encrypt_aes_gcm key nonce plain size fits =
      rw
        (
          law.decode-encode (nonce ++ x.seal key nonce plain),
          law.key_of_32 key size,
          ← fits,
          long_enough nonce (x.seal key nonce plain),
          take_front nonce (x.seal key nonce plain),
          drop_front nonce (x.seal key nonce plain),
        )
        (law.unseal-seal key nonce plain)

  decrypt-versioned :
      (v : ℕ) (key nonce plain : Bytes)
      → length key ≡ 32
      → length nonce ≡ x.nonce_size
      → decrypt_versioned x key (x.encode (v ∷ (nonce ++ x.seal key nonce plain))) ≡ some plain
  unfolding decrypt_versioned
  decrypt-versioned v key nonce plain size fits =
      let c = nonce ++ x.seal key nonce plain in
      rw
        (
          law.decode-encode (v ∷ c),
          not_short nonce (x.seal key nonce plain) (omega (arith, fits, law.nonce_of_12)),
        )
        (decrypt-encrypt_aes_gcm key nonce plain size fits)
    where
      not_short : (a b : Bytes) → length a ≡ 12 → ltb (suc (length (a ++ b))) 2 ≡ false
      not_short a b e = ground (arith, long_enough a b)

  -- What a store encrypts, every store that covers it decrypts.
  pub recovered :
      (s later : Store) (nonce plain : Bytes)
      → length s.key ≡ 32
      → Covers s later
      → length nonce ≡ x.nonce_size
      → (c : Bytes) × (encrypt x (some nonce) s plain ≡ some c) × (decrypt x later c ≡ some plain)
  unfolding encrypt decrypt versioned_encrypt encrypt_aes_gcm try_versioned extract_key_version
  recovered s later nonce plain size covers fits = elim (Bool-cases (ltb 0 s.version)) [
    | inl v ↦
        let c = x.encode (s.version ∷ (nonce ++ x.seal s.key nonce plain)) in
        let tried : try_versioned x later c ≡ some plain =
          rw
            (
              law.decode-encode (s.version ∷ (nonce ++ x.seal s.key nonce plain)),
              not_zero s.version v,
              covers.versioned v,
            )
            (decrypt-versioned s.version s.key nonce plain size fits) in
        rw (v, law.key_of_32 s.key size) (c, refl, ap (λ o. or_legacy x o later c) tried)
    | inr v ↦
        let c = x.encode (nonce ++ x.seal s.key nonce plain) in
        let (no_ring, same_key) = covers.legacy v in
        let tried : try_versioned x later c ≡ none =
          fallen (extract_key_version x c) later.ring c no_ring in
        rw (v, law.key_of_32 s.key size)
          (
            c,
            refl,
            ap (λ o. or_legacy x o later c) tried
                ∙ ap (λ k. decrypt_aes_gcm x k c) same_key
                ∙ decrypt-encrypt_aes_gcm s.key nonce plain size fits,
          )
  ]
    where
      not_zero : (n : ℕ) → ltb 0 n ≡ true → (n == 0) ≡ false
      not_zero n h = ground arith

      fallen :
          (o : Option ℕ) (ring : List VersionedKey) (c : Bytes)
          → ring ≡ []
          → and_then o (λ v. and_then (find_key v ring) (λ k. decrypt_versioned x k c)) ≡ none
      fallen none ring c e = refl
      fallen (some v) [] c e = unfold find_key in refl
      fallen (some v) (k ∷ ring) c e = cc
