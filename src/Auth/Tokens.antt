-- ===== src/Auth/Tokens.antt =====
-- internal/auth/token.go: tokens that carry claims under an HMAC. Texts are lists of bytes. The
-- encodings, the HMAC, the numbers and the UUIDs as texts are the parameter `Codec`, with what
-- their packages document as `Documented`. Times are nanoseconds since 1970.
pub mod Splitting
pub mod Accepted
use edgefabric.Prelude.{
  ℕ, ◌+◌, ◌/◌, ◌≡◌, Bool, true, false, not, ◌&&◌, ◌||◌, ◌==◌, ltb, Option, none, some, List, [],
  ◌∷◌, ◌++◌, if◌then◌else◌,
}
use edgefabric.Prelude.Int.{ℤ}
use edgefabric.Domain.{Uuid, Role, Claims}

abbrev pub Bytes : Type 0
Bytes = List ℕ

-- '.', '|', '0' and '1'.
abbrev pub dot : ℕ
dot = 46

abbrev pub bar : ℕ
bar = 124

abbrev pub zero_text : Bytes
zero_text = 48 ∷ []

abbrev pub one_text : Bytes
one_text = 49 ∷ []

-- `encode` and `decode` are RawURLEncoding; `role_text` and `text_role` are the conversions between
-- a role and a text; `scan_int` is Sscanf with "%d", and none its error.
pub record Codec : Type 0 where
  pub encode : Bytes → Bytes
  pub decode : Bytes → Option Bytes
  pub hmac : Bytes → Bytes → Bytes
  pub print_uuid : Uuid → Bytes
  pub parse_uuid : Bytes → Option Uuid
  pub print_int : ℕ → Bytes
  pub scan_int : Bytes → Option ℤ
  pub role_text : Role → Bytes
  pub text_role : Bytes → Role

abbrev pub contains : ℕ → Bytes → Bool
contains c [] = false
contains c (b ∷ bs) = b == c || contains c bs

abbrev pub is_empty : Bytes → Bool
is_empty [] = true
is_empty (b ∷ bs) = false

abbrev pub bytes_eq : Bytes → Bytes → Bool
bytes_eq [] [] = true
bytes_eq (a ∷ as_) (b ∷ bs) = a == b && bytes_eq as_ bs
bytes_eq _ _ = false

pub record Documented (x : Codec) : Type 0 where
  pub decode-encode : (b : Bytes) → x.decode (x.encode b) ≡ some b
  pub encode_no_dot : (b : Bytes) → contains dot (x.encode b) ≡ false
  pub parse-print_uuid : (u : Uuid) → x.parse_uuid (x.print_uuid u) ≡ some u
  pub uuid_no_bar : (u : Uuid) → contains bar (x.print_uuid u) ≡ false
  pub uuid_some : (u : Uuid) → is_empty (x.print_uuid u) ≡ false
  pub scan-print_int : (n : ℕ) → x.scan_int (x.print_int n) ≡ some (ℤ.pos n)
  pub int_no_bar : (n : ℕ) → contains bar (x.print_int n) ≡ false

pub record TokenService : Type 0 where
  pub signing_key : Bytes
  pub ttl : ℕ

pub data TokenError : Type 0 where
  bad_format bad_signature_encoding bad_signature bad_payload_encoding bad_payload : TokenError
  bad_user bad_tenant bad_issued bad_expiry has_expired : TokenError

pub data Verified : Type 0 where
  accepted : Claims → Verified
  refused : TokenError → Verified

-- Time.Unix
abbrev pub unix : ℕ → ℕ
unix t = t / 1_000_000_000

-- SplitN(s, c, 2), and none where the separator is missing.
abbrev pub cons_first : ℕ → Option (Bytes × Bytes) → Option (Bytes × Bytes)
cons_first b none = none
cons_first b (some (l, r)) = some (b ∷ l, r)

unfoldable pub split_two : ℕ → Bytes → Option (Bytes × Bytes)
split_two c [] = none
split_two c (b ∷ bs) =
    let rest = split_two c bs in if b == c then some ([], bs) else cons_first b rest

-- Split
abbrev pub cons_head : ℕ → List Bytes → List Bytes
cons_head b [] = (b ∷ []) ∷ []
cons_head b (f ∷ fs) = (b ∷ f) ∷ fs

unfoldable pub split : ℕ → Bytes → List Bytes
split c [] = [] ∷ []
split c (b ∷ bs) = let rest = split c bs in if b == c then [] ∷ rest else cons_head b rest

-- `v, err := …; if err != nil { return err }`
abbrev pub need {ℓ} : {A : Type ℓ} → TokenError → Option A → (A → Verified) → Verified
need e none k = refused e
need e (some a) k = k a

-- `time.Now().Unix() > expiresAt`
abbrev pub is_past : ℤ → ℕ → Bool
is_past (ℤ.pos e) now = ltb e now
is_past (ℤ.negsuc e) now = true

module _ (x : Codec) where
  open x use {
    encode, decode, hmac, print_uuid, parse_uuid, print_int, scan_int, role_text, text_role,
  }

  abbrev pub tenant_text : Option Uuid → Bytes
  tenant_text none = []
  tenant_text (some t) = print_uuid t

  abbrev pub flag_text : Bool → Bytes
  flag_text false = zero_text
  flag_text true = one_text

  unfoldable pub payload : TokenService → ℕ → Claims → Bytes
  payload ts now c =
      print_uuid c.user_id
      ++ bar
        ∷ (tenant_text c.tenant_id
            ++ bar
              ∷ (role_text c.role
                  ++ bar
                    ∷ (print_int (unix now)
                        ++ bar
                          ∷ (print_int (unix (now + ts.ttl)) ++ bar ∷ flag_text c.mfa_pending))))

  abbrev pub sign : TokenService → Bytes → Bytes
  sign ts b = hmac ts.signing_key b

  unfoldable pub issue : TokenService → ℕ → Claims → Bytes
  issue ts now c = let body = encode (payload ts now c) in body ++ dot ∷ encode (sign ts body)

  -- The tenant's field, which may be empty.
  abbrev pub with_tenant : Bytes → (Option Uuid → Verified) → Verified
  with_tenant t k =
      if is_empty t then k none else need bad_tenant (parse_uuid t) (λ id. k (some id))

  -- The five fields, and the flag.
  abbrev pub read_claims : ℕ → Bytes → Bytes → Bytes → Bytes → Bytes → Bool → Verified
  read_claims now user tenant role issued expires mfa = need bad_user (parse_uuid user) λ user_id.
      with_tenant tenant λ tenant_id. need bad_issued (scan_int issued) λ issued_at.
        need bad_expiry (scan_int expires) λ expires_at.
          if is_past expires_at (unix now)
          then refused has_expired
          else accepted (record {
            user_id = user_id;
            tenant_id = tenant_id;
            role = text_role role;
            api_key_id = none;
            mfa_pending = mfa;
          })

  abbrev pub read_fields : ℕ → List Bytes → Verified
  read_fields now (a ∷ b ∷ c ∷ d ∷ e ∷ []) = read_claims now a b c d e false
  read_fields now (a ∷ b ∷ c ∷ d ∷ e ∷ f ∷ []) = read_claims now a b c d e (bytes_eq f one_text)
  read_fields now _ = refused bad_payload

  abbrev pub verify_parts : TokenService → ℕ → Bytes × Bytes → Verified
  verify_parts ts now (body, tag) = need bad_signature_encoding (decode tag) λ given.
      if not (bytes_eq given (sign ts body))
      then refused bad_signature
      else need bad_payload_encoding (decode body) (λ b. read_fields now (split bar b))

  unfoldable pub verify : TokenService → ℕ → Bytes → Verified
  verify ts now token = need bad_format (split_two dot token) (verify_parts ts now)
