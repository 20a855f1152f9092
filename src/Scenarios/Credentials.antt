-- ===== src/Scenarios/Credentials.antt =====
-- Instances for session tokens and for secrets, with encodings that are easy to read: a byte for
-- each number, base64 that is the text with every byte raised by 200, and an HMAC and a cipher
-- that put their keys in front.
use edgefabric.Prelude.{
  ℕ, zero, suc, ◌&&◌, ◌+◌, ◌-◌, ◌≡◌, refl, ap₂, ap, ◌⊎◌, Bool, true, false, ◌==◌, ltb, Option, none,
  some, [], ◌∷◌, ◌++◌, if◌then◌else◌, length, take, arith, inl,
}
use edgefabric.Prelude.Int.{ℤ}
use edgefabric.Domain.{Role, Claims}
use edgefabric.Auth.Tokens.{
  Bytes, Codec, Documented, TokenService, accepted, refused, has_expired, dot, bar, contains, unix,
  issue, verify, split, split_two, payload, read_fields,
}
use edgefabric.Auth.Tokens.Accepted.{verify-issue, verify-Signed}
use edgefabric.Secrets.{
  Cipher, VersionedKey, Store, Documented as CipherDocumented, new_versioned_store, find_key,
  encrypt, decrypt, re_encrypt, decrypt_aes_gcm, extract_key_version, decrypt_versioned,
  try_versioned, drop,
}
use edgefabric.Secrets.Recovered.{rotation-decrypt, decrypt-re_encrypt, LooksCurrent}

abbrev raise : Bytes → Bytes
raise [] = []
raise (b ∷ bs) = (b + 200) ∷ raise bs

abbrev lower : Bytes → Bytes
lower [] = []
lower (b ∷ bs) = (b - 200) ∷ lower bs

lower-raise : (b : Bytes) → lower (raise b) ≡ b
lower-raise [] = refl
lower-raise (x ∷ b) = ap₂ ◌∷◌ (omega arith) (lower-raise b)

raise_no_dot : (b : Bytes) → contains dot (raise b) ≡ false
raise_no_dot [] = refl
raise_no_dot (x ∷ b) = ground (arith, raise_no_dot b)

abbrev only : Bytes → Option ℕ
only (b ∷ []) = some (b - 200)
only _ = none

abbrev role_byte : Role → Bytes
role_byte Role.admin = 2 ∷ []
role_byte _ = []

abbrev printed : Bytes → Option ℤ
printed (b ∷ []) = some (ℤ.pos (b - 200))
printed _ = none

abbrev codec : Codec
codec = record {
  encode = raise;
  decode = λ b. some (lower b);
  hmac = λ k b. k ++ b;
  print_uuid = λ u. (u + 200) ∷ [];
  parse_uuid = only;
  print_int = λ n. (n + 200) ∷ [];
  scan_int = printed;
  role_text = role_byte;
  text_role = λ b. Role.admin;
}

codec-Documented : Documented codec
codec-Documented = record {
  decode-encode = λ b. ap some (lower-raise b);
  encode_no_dot = raise_no_dot;
  parse-print_uuid = λ u. ap some (back u);
  uuid_no_bar = λ u. ground arith;
  uuid_some = λ u. refl;
  scan-print_int = λ n. ap (λ m. some (ℤ.pos m)) (back n);
  int_no_bar = λ n. ground arith;
}
  where
    back : (n : ℕ) → n + 200 - 200 ≡ n
    back n = omega arith

abbrev service : TokenService
service = record { signing_key = 7 ∷ 9 ∷ []; ttl = 60_000_000_000 }

abbrev claims : Claims
claims = record {
  user_id = 5;
  tenant_id = some 6;
  role = Role.admin;
  api_key_id = none;
  mfa_pending = true;
}

verify-issue_example :
    verify codec service 30_000_000_000 (issue codec service 1_000_000_000 claims) ≡ (
      if ltb (unix (1_000_000_000 + service.ttl)) (unix 30_000_000_000)
      then refused has_expired
      else accepted (record claims { api_key_id = none }))
verify-issue_example =
    verify-issue codec codec-Documented service 1_000_000_000 30_000_000_000 claims refl refl

claims_accepted :
    verify codec service 30_000_000_000 (issue codec service 1_000_000_000 claims) ≡ accepted claims
unfolding verify issue payload split split_two
claims_accepted = refl

verify-Signed_example :
    (body : Bytes) × (tag : Bytes) × (fields : Bytes) × (issue codec service 1_000_000_000 claims
      ≡ body ++ dot ∷ tag)
    × (codec.decode tag ≡ some (codec.hmac service.signing_key body))
    × (codec.decode body ≡ some fields)
    × (read_fields codec 30_000_000_000 (split bar fields) ≡ accepted claims)
verify-Signed_example =
    verify-Signed codec service 30_000_000_000 (issue codec service 1_000_000_000 claims) claims
      claims_accepted

-- A cipher that checks the key and the nonce.
abbrev same_bytes : Bytes → Bytes → Bool
same_bytes [] [] = true
same_bytes (a ∷ as_) (b ∷ bs) = a == b && same_bytes as_ bs
same_bytes _ _ = false

same_bytes_self : (b : Bytes) → same_bytes b b ≡ true
same_bytes_self [] = refl
same_bytes_self (x ∷ b) = ground (arith, same_bytes_self b)

abbrev tagged : Bytes → Bytes → Bytes → Option Bytes
tagged k n c =
    let m = length (k ++ n) in if same_bytes (take m c) (k ++ n) then some (drop m c) else none

take_tag : (a b : Bytes) → take (length a) (a ++ b) ≡ a
take_tag [] [] = refl
take_tag [] (y ∷ b) = refl
take_tag (x ∷ a) b = ap (◌∷◌ x) (take_tag a b)

drop_tag : (a b : Bytes) → drop (length a) (a ++ b) ≡ b
drop_tag [] b = refl
drop_tag (x ∷ a) b = drop_tag a b

abbrev cipher : Cipher
cipher = record {
  encode = raise;
  decode = λ b. some (lower b);
  valid_key = λ k. length k == 32;
  nonce_size = 12;
  seal = λ k n p. (k ++ n) ++ p;
  unseal = tagged;
}

cipher-Documented : CipherDocumented cipher
cipher-Documented = record {
  decode-encode = λ b. ap some (lower-raise b);
  key_of_32 = λ k e. ground arith;
  nonce_of_12 = refl;
  unseal-seal =
      λ k n p. rw (take_tag (k ++ n) p, same_bytes_self (k ++ n), drop_tag (k ++ n) p) refl;
}

abbrev filled : ℕ → ℕ → Bytes
filled zero b = []
filled (suc n) b = b ∷ filled n b

abbrev old_key : VersionedKey
old_key = record { version = 1; key = filled 32 4 }

abbrev new_key : VersionedKey
new_key = record { version = 2; key = filled 32 5 }

abbrev old_store : Store
old_store = record { key = old_key.key; version = 1; ring = old_key ∷ [] }

abbrev later_store : Store
later_store = record { key = new_key.key; version = 2; ring = new_key ∷ old_key ∷ [] }

old_store-made : new_versioned_store (old_key ∷ []) ≡ some old_store
unfolding new_versioned_store
old_store-made = refl

later_store-made : new_versioned_store (new_key ∷ old_key ∷ []) ≡ some later_store
unfolding new_versioned_store
later_store-made = refl

abbrev secret : Bytes
secret = 1 ∷ 2 ∷ 3 ∷ []

rotation-decrypt_example :
    (c : Bytes) × (encrypt cipher (some (filled 12 9)) old_store secret ≡ some c)
    × (decrypt cipher old_store c ≡ some secret)
    × (decrypt cipher later_store c ≡ some secret)
rotation-decrypt_example =
    rotation-decrypt cipher cipher-Documented (old_key ∷ []) new_key old_store later_store
      (filled 12 9) secret old_store-made later_store-made refl refl

-- What the old store has encrypted.
abbrev stored : Bytes
stored = raise (1 ∷ (filled 12 9 ++ ((filled 32 4 ++ filled 12 9) ++ secret)))

stored_read : decrypt cipher later_store stored ≡ some secret
unfolding decrypt try_versioned extract_key_version decrypt_versioned decrypt_aes_gcm find_key
stored_read = refl

decrypt-re_encrypt_example :
    (d : Bytes) × (changed : Bool) × (re_encrypt cipher (some (filled 12 8)) later_store stored
      ≡ some (d, changed))
    × (decrypt cipher later_store d ≡ some secret)
    × (LooksCurrent cipher cipher-Documented later_store stored × (d ≡ stored) × (changed ≡ false)
        ⊎ (¬ LooksCurrent cipher cipher-Documented later_store stored)
          × (changed ≡ true)
          × (encrypt cipher (some (filled 12 8)) later_store secret ≡ some d))
    × ((later_store.version ≡ 0) ⊎ (extract_key_version cipher d ≡ some later_store.version))
decrypt-re_encrypt_example =
    decrypt-re_encrypt cipher cipher-Documented later_store (filled 12 8) stored secret
      (inl (new_key ∷ old_key ∷ [], later_store-made)) refl stored_read
