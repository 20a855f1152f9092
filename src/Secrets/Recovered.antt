-- ===== src/Secrets/Recovered.antt =====
-- What is decrypted again, under the store that encrypted it and under later ones.
use edgefabric.Prelude.{
  ℕ, ◌≡◌, ◌↔◌, refl, sym, ap, subst, ◌⊎◌, ◌∙◌, inl, inr, Bool, Bool-cases, true, false, ◌&&◌, ◌==◌,
  ==_iff, ltb, Option, none, some, List, [], ◌∷◌, ◌++◌, if◌then◌else◌, length, arith,
}
use edgefabric.Secrets.{
  Bytes, Cipher, Documented, VersionedKey, Store, and_then, find_key, new_versioned_store,
  new_store, versioned_encrypt, extract_key_version, encrypt, decrypt, re_encrypt, is_version,
  first_byte,
}
use edgefabric.Secrets.Covered.{Covers, Usable, store_if, new_versioned_store-FromKeys, recovered}

module _ (x : Cipher) (law : Documented x) where
  -- The stores that a program has: those that the two constructors return.
  abbrev pub Made : Store → Type 0
  Made s =
      ((ks : List VersionedKey) × (new_versioned_store ks ≡ some s))
      ⊎ ((encoded : Bytes) × (new_store x encoded ≡ some s))

  new_store-Usable : (encoded : Bytes) (s : Store) → new_store x encoded ≡ some s → Usable s
  unfolding new_store
  new_store-Usable encoded s h = legacy (x.decode encoded) h
    where
      legacy :
          (o : Option Bytes)
          → and_then o (λ key.
            if length key == 32 then some (record { key = key; version = 0; ring = [] }) else none)
            ≡ some s
          → Usable s
      legacy none e = cc
      legacy (some key) e =
          store_if Usable (length key == 32) (record { key = key; version = 0; ring = [] }) s
            (λ size. (
              (==_iff (length key) 32).0 size,
              record { versioned = λ v. cc; legacy = λ v. (refl, refl) },
            ))
            e

  Made-Usable : (s : Store) → Made s → Usable s
  Made-Usable s (inl (ks, h)) = (new_versioned_store-FromKeys ks s h).0
  Made-Usable s (inr (encoded, h)) = new_store-Usable encoded s h

  -- A secret that a store encrypts under the first of some versioned keys is decrypted by that
  -- store, and also after a rotation, by a store with one more key in front whose version is not
  -- that of the old first key, if the cipher and base64 do what their packages document.
  pub rotation-decrypt :
      (ks : List VersionedKey) (k : VersionedKey) (s later : Store) (nonce plain : Bytes)
      → new_versioned_store ks ≡ some s
      → new_versioned_store (k ∷ ks) ≡ some later
      → (k.version == s.version) ≡ false
      → length nonce ≡ x.nonce_size
      → (c : Bytes) × (encrypt x (some nonce) s plain ≡ some c)
        × (decrypt x s c ≡ some plain)
        × (decrypt x later c ≡ some plain)
  rotation-decrypt ks k s later nonce plain old new apart fits =
      let ((size, covers), versioned, found, ring) = new_versioned_store-FromKeys ks s old in
      let later_ring = (new_versioned_store-FromKeys (k ∷ ks) later new).3 in
      let kept : Covers s later = record {
        versioned = λ v. ap (find_key s.version) later_ring ∙ behind;
        legacy = λ v. cc;
      } in
      let (c, encrypted, plain_later) = recovered x law s later nonce plain size kept fits in
      let (d, encrypted2, plain_now) = recovered x law s s nonce plain size covers fits in
      let same : d ≡ c = some_same (sym encrypted2 ∙ encrypted) in
      (c, encrypted, subst (λ e. decrypt x s e ≡ some plain) same plain_now, plain_later)
    where
      behind : find_key s.version (k ∷ ks) ≡ some s.key
      behind = unfold find_key in rw apart (new_versioned_store-FromKeys ks s old).2

      some_same : {a b : Bytes} → some a ≡ some b → a ≡ b
      some_same e = cc

  -- The ciphertext begins with the version of the store's key, so that it counts as current.
  abbrev pub LooksCurrent : Store → Bytes → Type 0
  LooksCurrent s c = (ltb 0 s.version ≡ true) × (extract_key_version x c ≡ some s.version)

  -- What a store with a version encrypts carries that version.
  extract_key_version-encrypt :
      (s : Store) (nonce plain d : Bytes)
      → length s.key ≡ 32
      → ltb 0 s.version ≡ true
      → encrypt x (some nonce) s plain ≡ some d
      → extract_key_version x d ≡ some s.version
  unfolding encrypt versioned_encrypt extract_key_version
  extract_key_version-encrypt s nonce plain d size v h =
      let c = x.encode (s.version ∷ (nonce ++ x.seal s.key nonce plain)) in
      let made : some c ≡ some d = rw (v, law.key_of_32 s.key size) at h in
      subst (λ e. and_then (x.decode e) first_byte ≡ some s.version) (same made)
        (rw
          (
            law.decode-encode (s.version ∷ (nonce ++ x.seal s.key nonce plain)),
            not_zero s.version v,
          )
          refl)
    where
      same : {a b : Bytes} → some a ≡ some b → a ≡ b
      same e = cc

      not_zero : (n : ℕ) → ltb 0 n ≡ true → (n == 0) ≡ false
      not_zero n e = ground arith

  looks_current :
      (s : Store) (c : Bytes)
      → (ltb 0 s.version && is_version x s.version (extract_key_version x c) ≡ true)
        ↔ LooksCurrent s c
  looks_current s c = (
    (λ h. forward (ltb 0 s.version) (extract_key_version x c) h),
    (λ h. backward (ltb 0 s.version) (extract_key_version x c) h.0 h.1),
  )
    where
      forward :
          (b : Bool) (o : Option ℕ)
          → (b && is_version x s.version o) ≡ true
          → (b ≡ true) × (o ≡ some s.version)
      forward true none h = cc
      forward true (some w) h = (refl, ap some ((==_iff w s.version).0 h))
      forward false o h = cc

      backward :
          (b : Bool) (o : Option ℕ)
          → b ≡ true
          → o ≡ some s.version
          → (b && is_version x s.version o) ≡ true
      backward b o e h = rw (e, h) ((==_iff s.version s.version).1 refl)

  -- A store that one of the two constructors returned re-encrypts every ciphertext that it decrypts,
  -- and decrypts the result to the same secret. The ciphertext is returned as it is, and reported as
  -- unchanged, exactly if the store has a version and the ciphertext begins with it, also where an
  -- unversioned one does so by chance. Any other is reported as changed, and the result is what the
  -- store encrypts the secret to now. Under a store with a version, the result carries that version.
  -- The cipher and base64 do what their packages document, and the nonce has the cipher's size.
  pub decrypt-re_encrypt :
      (s : Store) (nonce c plain : Bytes)
      → Made s
      → length nonce ≡ x.nonce_size
      → decrypt x s c ≡ some plain
      → (d : Bytes) × (changed : Bool) × (re_encrypt x (some nonce) s c ≡ some (d, changed))
        × (decrypt x s d ≡ some plain)
        × (LooksCurrent s c × (d ≡ c) × (changed ≡ false)
            ⊎ (¬ LooksCurrent s c) × (changed ≡ true) × (encrypt x (some nonce) s plain ≡ some d))
        × ((s.version ≡ 0) ⊎ (extract_key_version x d ≡ some s.version))
  unfolding re_encrypt
  decrypt-re_encrypt s nonce c plain made fits h =
      let (size, covers) = Made-Usable s made in
      elim (Bool-cases (ltb 0 s.version && is_version x s.version (extract_key_version x c))) [
        | inl current ↦
            let now = (looks_current s c).0 current in
            (c, false, rw current refl, h, inl (now, refl, refl), inr now.1)
        | inr old ↦
            let (d, encrypted, again) = recovered x law s s nonce plain size covers fits in
            (
              d,
              true,
              rw (old, h, encrypted) refl,
              again,
              inr ((λ now. differ old ((looks_current s c).1 now)), refl, encrypted),
              carries d encrypted size,
            )
      ]
    where
      differ : {b : Bool} → b ≡ false → b ≡ true → ⊥
      differ e f = cc

      zero_of : (n : ℕ) → ltb 0 n ≡ false → n ≡ 0
      zero_of n e = ground arith

      carries :
          (d : Bytes)
          → encrypt x (some nonce) s plain ≡ some d
          → length s.key ≡ 32
          → (s.version ≡ 0) ⊎ (extract_key_version x d ≡ some s.version)
      carries d e size = elim (Bool-cases (ltb 0 s.version)) [
        | inl v ↦ inr (extract_key_version-encrypt s nonce plain d size v e)
        | inr v ↦ inl (zero_of s.version v)
      ]
