-- ===== src/DnsServer/Query/Answers.antt =====
-- The names for which the server answers that they do not exist.
use edgefabric.Prelude.{
  ℕ, ◌≡◌, ◌↔◌, refl, sym, ◌∙◌, ap, String, Bool, true, false, not, ◌&&◌, ◌==◌, List, [], ◌∷◌, ◌++◌,
  select, any, arith, if◌then◌else◌,
}
use edgefabric.Dns.Types.{Record}
use edgefabric.DnsServer.Records.{
  Texts, ResourceRecord, find_records, name_exists_in_zone, add_zone_records,
}
use edgefabric.DnsServer.Records.Lookup.{
  is_for, has_name, all_records, find_records-select, name_exists-any,
}
use edgefabric.DnsServer.Zones.{ZoneData}
use edgefabric.DnsServer.Transfer.{build_soa}
use edgefabric.DnsServer.Query.{
  success, name_error, Message, reply_with, is_empty, target_of, chased, negative, look_up,
}

module _ (x : Texts) where
  select_without_name :
      (name : String) (rtype : ℕ) (l : List ResourceRecord)
      → any (has_name x name) l ≡ false
      → select (is_for x name rtype) l ≡ []
  select_without_name name rtype [] h = refl
  select_without_name name rtype (rr ∷ l) h = ground (arith, select_without_name name rtype l)

  -- The message, from whether the name is there and the question is for aliases, with the records and
  -- the aliases that the name has.
  abbrev outcome_of :
      Bool → Bool → ZoneData → ℕ → List ResourceRecord → List ResourceRecord → Message
  outcome_of exists for_alias zd qtype rrs aliases =
      if is_empty rrs && not for_alias && not (is_empty aliases)
      then reply_with (aliases ++ chased x qtype zd.records (target_of aliases))
      else (if not (is_empty rrs) then reply_with rrs else record {
        rcode = if exists then success else name_error;
        authoritative = true;
        answer = [];
        ns = build_soa x zd ∷ [];
      })

  name_error_only :
      (exists for_alias : Bool) (zd : ZoneData) (qtype : ℕ) (rrs aliases : List ResourceRecord)
      → (outcome_of exists for_alias zd qtype rrs aliases).rcode ≡ name_error
      → exists ≡ false
  name_error_only false c zd qtype rrs aliases h = refl
  name_error_only true c zd qtype (rr ∷ rrs) aliases h = cc
  name_error_only true true zd qtype [] aliases h = cc
  name_error_only true false zd qtype [] [] h = cc
  name_error_only true false zd qtype [] (a ∷ aliases) h = cc

  name_error_if :
      (exists for_alias : Bool) (zd : ZoneData) (qtype : ℕ) (rrs aliases : List ResourceRecord)
      → rrs ≡ []
      → aliases ≡ []
      → exists ≡ false
      → (outcome_of exists for_alias zd qtype rrs aliases).rcode ≡ name_error
  name_error_if exists true zd qtype rrs aliases e f g = rw (e, g) refl
  name_error_if exists false zd qtype rrs aliases e f g = rw (e, f, g) refl

  -- Where the question is not for the SOA record, a transfer or NS records at the apex, the server
  -- answers that a name does not exist exactly if no record of the zone has the name, whatever its
  -- type; at the apex too.
  pub look_up_name_error_iff :
      (zd : ZoneData) (records : List Record) (zone_name qname : String) (ttl qtype : ℕ)
      → zd.records ≡ add_zone_records x records zone_name ttl []
      → ((look_up x zd qname qtype).rcode ≡ name_error)
        ↔ (any (has_name x qname) (all_records x records zone_name ttl) ≡ false)
  unfolding look_up negative find_records name_exists_in_zone
  look_up_name_error_iff zd records zone_name qname ttl qtype built = (
    λ h. sym exists ∙ name_error_only _ (qtype == 5) zd qtype _ _ h,
    λ h.
        name_error_if (name_exists_in_zone qname zd.records) (qtype == 5) zd qtype
          (find_records qname qtype zd.records) (find_records qname 5 zd.records) (none_of qtype h)
          (none_of 5 h) (exists ∙ h),
  )
    where
      exists :
          name_exists_in_zone qname zd.records
          ≡ any (has_name x qname) (all_records x records zone_name ttl)
      exists =
          ap (name_exists_in_zone qname) built ∙ name_exists-any x records zone_name ttl qname []

      none_of :
          (rtype : ℕ)
          → any (has_name x qname) (all_records x records zone_name ttl) ≡ false
          → find_records qname rtype zd.records ≡ []
      none_of rtype h =
          ap (find_records qname rtype) built
          ∙ find_records-select x records zone_name ttl qname rtype []
          ∙ select_without_name qname rtype (all_records x records zone_name ttl) h
