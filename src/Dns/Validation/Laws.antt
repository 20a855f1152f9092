-- ===== src/Dns/Validation/Laws.antt =====
-- Which records the validation accepts.
use edgefabric.Prelude.{
  or_else, or_else_iff, nonempty_iff, both_iff, iff_trans, String, ◌≡◌, ◌≢◌, ◌↔◌, ◌⊎◌, refl, true,
  false, Option, none, some, List, ◌∷◌, str_eq, arith, eq_iff,
}
use edgefabric.Prelude.Int.{ℤ, InRange}
use edgefabric.Dns.Types.{RecordType, Record, is_empty_type}
use edgefabric.Dns.Validation.{
  Platform, Invalid, validate_a, validate_aaaa, priority_range, name_required, value_required,
  type_required, weight_range, port_range, ipv4, ipv6, out_of_range, is_valid_hostname,
  validate_target, check_mx, check_srv, check_caa, validate_by_type, validate_record,
}

abbrev pub IsPort : Option ℤ → Type 0
IsPort none = ⊥
IsPort (some z) = InRange 0 65535 z

abbrev pub IsCaa : Platform → List String → Type 0
IsCaa p (flag ∷ tag ∷ value ∷ rest) =
    ((flag ≡ "0") ⊎ (flag ≡ "128"))
    × ((p.to_lower tag ≡ "issue") ⊎ (p.to_lower tag ≡ "issuewild") ⊎ (p.to_lower tag ≡ "iodef"))
IsCaa p _ = ⊥

-- What a record of each type has to hold.
abbrev pub HoldsAs : Platform → RecordType → Record → Type 0
HoldsAs p RecordType.a r = p.parse_ip r.value ≡ some ipv4
HoldsAs p RecordType.aaaa r = p.parse_ip r.value ≡ some ipv6
HoldsAs p RecordType.cname r = is_valid_hostname p r.value ≡ true
HoldsAs p RecordType.mx r = IsPort r.priority × (is_valid_hostname p r.value ≡ true)
HoldsAs p RecordType.txt r = Unit
HoldsAs p RecordType.ns r = is_valid_hostname p r.value ≡ true
HoldsAs p RecordType.srv r =
    IsPort r.priority × IsPort r.weight × IsPort r.port × (is_valid_hostname p r.value ≡ true)
HoldsAs p RecordType.caa r = IsCaa p (p.split3 r.value)
HoldsAs p RecordType.ptr r = is_valid_hostname p r.value ≡ true
HoldsAs p (RecordType.other s) r = ⊥

out_of_range_iff : (z : ℤ) → (out_of_range z ≡ false) ↔ InRange 0 65535 z
unfolding out_of_range
out_of_range_iff z = (ground arith, ground arith)

module _ (p : Platform) where
  target_iff : (r : Record) → (validate_target p r ≡ none) ↔ (is_valid_hostname p r.value ≡ true)
  unfolding validate_target
  target_iff r = (ground arith, ground arith)

  mx_iff :
      (o : Option ℤ) (r : Record)
      → (check_mx p o r ≡ none) ↔ (IsPort o × (is_valid_hostname p r.value ≡ true))
  unfolding check_mx
  mx_iff none r = (λ h. cc, λ h. absurd h.0)
  mx_iff (some (ℤ.pos z)) r = (ground arith, ground arith)
  mx_iff (some (ℤ.negsuc z)) r = (ground arith, ground arith)

  srv_iff :
      (o w q : Option ℤ) (r : Record)
      → (check_srv p o w q r ≡ none)
        ↔ (IsPort o × IsPort w × IsPort q × (is_valid_hostname p r.value ≡ true))
  unfolding check_srv
  srv_iff none w q r = (λ h. cc, λ h. absurd h.0)
  srv_iff (some o) none q r = (λ h. cc, λ h. absurd h.1)
  srv_iff (some o) (some w) none r = (λ h. cc, λ h. absurd h.2)
  srv_iff (some o) (some w) (some q) r =
      iff_trans (or_else_iff (out_of_range o) priority_range rest_w) (
        iff_trans
          (both_iff (out_of_range_iff o) (
            iff_trans (or_else_iff (out_of_range w) weight_range rest_q) (
              both_iff (out_of_range_iff w) (
                iff_trans (or_else_iff (out_of_range q) port_range (validate_target p r))
                  (both_iff (out_of_range_iff q) (target_iff r))))))
          (λ h. (h.0, h.1.0, h.1.1.0, h.1.1.1), λ h. (h.0, (h.1, (h.2, h.3)))))
    where
      rest_q : Option Invalid
      rest_q = or_else (out_of_range q) port_range (validate_target p r)

      rest_w : Option Invalid
      rest_w = or_else (out_of_range w) weight_range rest_q

  check_caa_iff : (l : List String) → (check_caa p l ≡ none) ↔ IsCaa p l
  unfolding check_caa
  check_caa_iff (flag ∷ tag ∷ value ∷ rest) = (
    ground (
      arith,
      eq_iff flag "0",
      eq_iff flag "128",
      eq_iff (p.to_lower tag) "issue",
      eq_iff (p.to_lower tag) "issuewild",
      eq_iff (p.to_lower tag) "iodef",
    ),
    ground (
      arith,
      eq_iff flag "0",
      eq_iff flag "128",
      eq_iff (p.to_lower tag) "issue",
      eq_iff (p.to_lower tag) "issuewild",
      eq_iff (p.to_lower tag) "iodef",
    ),
  )
  check_caa_iff _ = (λ h. cc, λ h. absurd h)

  a_iff : (r : Record) → (validate_a p r ≡ none) ↔ (p.parse_ip r.value ≡ some ipv4)
  unfolding validate_a
  a_iff r = (ground arith, ground arith)

  aaaa_iff : (r : Record) → (validate_aaaa p r ≡ none) ↔ (p.parse_ip r.value ≡ some ipv6)
  unfolding validate_aaaa
  aaaa_iff r = (ground arith, ground arith)

  by_type_iff : (t : RecordType) (r : Record) → (validate_by_type p t r ≡ none) ↔ HoldsAs p t r
  unfolding validate_by_type
  by_type_iff RecordType.a r = a_iff r
  by_type_iff RecordType.aaaa r = aaaa_iff r
  by_type_iff RecordType.mx r = mx_iff r.priority r
  by_type_iff RecordType.txt r = (λ h. tt, λ h. refl)
  by_type_iff RecordType.srv r = srv_iff r.priority r.weight r.port r
  by_type_iff RecordType.caa r = check_caa_iff (p.split3 r.value)
  by_type_iff (RecordType.other s) r = (λ h. cc, λ h. absurd h)
  by_type_iff _ r = target_iff r

  typed_iff :
      (t : RecordType) (r : Record)
      → (or_else (is_empty_type t) type_required (validate_by_type p t r) ≡ none) ↔ HoldsAs p t r
  typed_iff (RecordType.other s) r =
      (ground (arith, by_type_iff (RecordType.other s) r), λ h. absurd h)
  typed_iff RecordType.a r = by_type_iff RecordType.a r
  typed_iff RecordType.aaaa r = by_type_iff RecordType.aaaa r
  typed_iff RecordType.cname r = by_type_iff RecordType.cname r
  typed_iff RecordType.mx r = by_type_iff RecordType.mx r
  typed_iff RecordType.txt r = by_type_iff RecordType.txt r
  typed_iff RecordType.ns r = by_type_iff RecordType.ns r
  typed_iff RecordType.srv r = by_type_iff RecordType.srv r
  typed_iff RecordType.caa r = by_type_iff RecordType.caa r
  typed_iff RecordType.ptr r = by_type_iff RecordType.ptr r

  -- A record passes validation exactly if it has a name and a value and holds what its type asks
  -- for: an address of the right family, a valid host name, priorities, weights and ports that are
  -- there and lie between 0 and 65535, a CAA value with a known flag and tag, and for TXT nothing
  -- more. A record of any other type never passes.
  pub validate_record_iff :
      (r : Record)
      → (validate_record p r ≡ none) ↔ ((r.name ≢ "") × (r.value ≢ "") × HoldsAs p r.type r)
  unfolding validate_record
  validate_record_iff r = iff_trans (or_else_iff (str_eq r.name "") name_required rest_value) (
      iff_trans
        (both_iff (nonempty_iff r.name) (
          iff_trans (or_else_iff (str_eq r.value "") value_required rest_type)
            (both_iff (nonempty_iff r.value) (typed_iff r.type r))))
        (λ h. (h.0, h.1.0, h.1.1), λ h. (h.0, (h.1, h.2))))
    where
      rest_type : Option Invalid
      rest_type = or_else (is_empty_type r.type) type_required (validate_by_type p r.type r)

      rest_value : Option Invalid
      rest_value = or_else (str_eq r.value "") value_required rest_type
