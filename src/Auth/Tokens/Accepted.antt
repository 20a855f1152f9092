-- ===== src/Auth/Tokens/Accepted.antt =====
-- Which tokens are accepted, and with which claims.
use edgefabric.Prelude.{
  ℕ, ◌+◌, ◌≡◌, refl, ap, ◌∙◌, Bool, true, false, not, ltb, Option, none, some, [], ◌∷◌, ◌++◌,
  if◌then◌else◌,
}
use edgefabric.Domain.{Uuid, Role, Claims}
use edgefabric.Auth.Tokens.{
  Bytes, Codec, Documented, TokenService, TokenError, Verified, accepted, refused, has_expired, dot,
  bar, one_text, contains, bytes_eq, unix, split, payload, issue, verify, sign, need, tenant_text,
  flag_text, read_fields, read_claims,
}
use edgefabric.Auth.Tokens.Splitting.{
  split_two_lem, split_lem, split_whole, split_two-joins, bytes_eq_self, bytes_eq_same,
}

need-accepted :
    {A : Type 0} (e : TokenError) (o : Option A) (k : A → Verified) (c : Claims)
    → need e o k ≡ accepted c
    → (a : A) × (o ≡ some a) × (k a ≡ accepted c)
need-accepted e none k c h = cc
need-accepted e (some a) k c h = (a, refl, h)

test-accepted :
    (b : Bool) (e : TokenError) (v : Verified) (c : Claims)
    → (if not b then refused e else v) ≡ accepted c
    → (b ≡ true) × (v ≡ accepted c)
test-accepted true e v c h = (refl, h)
test-accepted false e v c h = cc

module _ (x : Codec) (law : Documented x) (ts : TokenService) where
  tenant_no_bar : (o : Option Uuid) → contains bar (tenant_text x o) ≡ false
  tenant_no_bar none = refl
  tenant_no_bar (some t) = law.uuid_no_bar t

  flag_no_bar : (b : Bool) → contains bar (flag_text x b) ≡ false
  flag_no_bar true = refl
  flag_no_bar false = refl

  flag_read : (b : Bool) → bytes_eq (flag_text x b) one_text ≡ b
  flag_read true = refl
  flag_read false = refl

  claims_read :
      (now expires later : ℕ) (u : Uuid) (o : Option Uuid) (r : Role) (b : Bool)
      → x.text_role (x.role_text r) ≡ r
      → read_claims x later
          (x.print_uuid u)
          (tenant_text x o)
          (x.role_text r)
          (x.print_int now)
          (x.print_int expires)
          (bytes_eq (flag_text x b) one_text)
        ≡ (if ltb expires (unix later)
            then refused has_expired
            else accepted (record {
              user_id = u;
              tenant_id = o;
              role = r;
              api_key_id = none;
              mfa_pending = b;
            }))
  claims_read now expires later u none r b role =
      rw
        (
          law.parse-print_uuid u,
          law.scan-print_int now,
          law.scan-print_int expires,
          role,
          flag_read b,
        )
        refl
  claims_read now expires later u (some t) r b role =
      rw
        (
          law.parse-print_uuid u,
          law.uuid_some t,
          law.parse-print_uuid t,
          law.scan-print_int now,
          law.scan-print_int expires,
          role,
          flag_read b,
        )
        refl

  -- The fields of a token's payload.
  split-payload :
      (now : ℕ) (c : Claims)
      → contains bar (x.role_text c.role) ≡ false
      → split bar (payload x ts now c)
        ≡ x.print_uuid c.user_id
          ∷ tenant_text x c.tenant_id
          ∷ x.role_text c.role
          ∷ x.print_int (unix now)
          ∷ x.print_int (unix (now + ts.ttl))
          ∷ flag_text x c.mfa_pending
          ∷ []
  unfolding payload
  split-payload now c role =
      rw
        (
          split_lem bar (x.print_uuid c.user_id) _ (law.uuid_no_bar c.user_id),
          split_lem bar (tenant_text x c.tenant_id) _ (tenant_no_bar c.tenant_id),
          split_lem bar (x.role_text c.role) _ role,
          split_lem bar (x.print_int (unix now)) _ (law.int_no_bar (unix now)),
          split_lem bar (x.print_int (unix (now + ts.ttl))) _
              (law.int_no_bar (unix (now + ts.ttl))),
          split_whole bar (flag_text x c.mfa_pending) (flag_no_bar c.mfa_pending),
        )
        refl

  -- A token that was issued for claims is accepted with these claims, without an identifier of an
  -- API key, until the second of its expiry has passed, and then refused as expired, provided that
  -- the text of the role has no bar and reads as the role, and that the encodings do what their
  -- packages document.
  pub verify-issue :
      (now later : ℕ) (c : Claims)
      → contains bar (x.role_text c.role) ≡ false
      → x.text_role (x.role_text c.role) ≡ c.role
      → verify x ts later (issue x ts now c) ≡ (
          if ltb (unix (now + ts.ttl)) (unix later)
          then refused has_expired
          else accepted (record c { api_key_id = none }))
  unfolding verify issue
  verify-issue now later c role read =
      let body = x.encode (payload x ts now c) in
      rw
        (
          split_two_lem dot body (x.encode (sign x ts body))
              (law.encode_no_dot (payload x ts now c)),
          law.decode-encode (sign x ts body),
          bytes_eq_self (sign x ts body),
          law.decode-encode (payload x ts now c),
          split-payload now c role,
        )
        (claims_read (unix now) (unix (now + ts.ttl)) later c.user_id c.tenant_id c.role
          c.mfa_pending read)

module _ (x : Codec) (ts : TokenService) where
  -- Whatever a token is, if it is accepted, then it is a body, a dot and a tag: the tag decodes to
  -- the HMAC of the body under the service's key, and the claims are those that the fields of the
  -- decoded body are read as at that time.
  pub verify-Signed :
      (now : ℕ) (token : Bytes) (c : Claims)
      → verify x ts now token ≡ accepted c
      → (body : Bytes) × (tag : Bytes) × (fields : Bytes) × (token ≡ body ++ dot ∷ tag)
        × (x.decode tag ≡ some (x.hmac ts.signing_key body))
        × (x.decode body ≡ some fields)
        × (read_fields x now (split bar fields) ≡ accepted c)
  unfolding verify
  verify-Signed now token c h =
      let ((body, tag), parts, h1) = need-accepted TokenError.bad_format _ _ c h in
      let (given, decoded, h2) = need-accepted TokenError.bad_signature_encoding _ _ c h1 in
      let (same, h3) = test-accepted (bytes_eq given (sign x ts body)) _ _ c h2 in
      let (fields, inner, h4) = need-accepted TokenError.bad_payload_encoding _ _ c h3 in
      (
        body,
        tag,
        fields,
        split_two-joins dot token body tag parts,
        decoded ∙ ap some (bytes_eq_same given (sign x ts body) same),
        inner,
        h4,
      )
