-- ===== src/DnsServer/Query.antt =====
-- internal/dnsserver/miekg.go: the answer to a query. A reply has the records of its sections, and the
-- metrics of a query are left out.
pub mod Answers
use edgefabric.Prelude.{
  ℕ, ◌+◌, ◌%◌, ◌^◌, String, Bool, true, false, not, ◌&&◌, ◌==◌, str_eq, Option, none, some, List,
  [], ◌∷◌, ◌++◌, if◌then◌else◌,
}
use edgefabric.Provisioning.Overlay.{Ip}
use edgefabric.DnsServer.Records.{
  Texts, ResourceRecord, Rdata, cname_data, ns_data, Bucket, find_records, name_exists_in_zone,
}
use edgefabric.DnsServer.Zones.{ZoneData, Server, find_zone}
use edgefabric.DnsServer.Transfer.{Outcome, build_soa, handle_axfr}

pub data Rcode : Type 0 where
  success server_failure name_error refused : Rcode

pub record Question : Type 0 where
  pub name : String
  pub qtype : ℕ

pub record Message : Type 0 where
  pub rcode : Rcode
  pub authoritative : Bool
  pub answer : List ResourceRecord
  pub ns : List ResourceRecord

pub data Reply : Type 0 where
  message : Message → Reply
  transfer : Outcome → Reply

abbrev pub reply_with : List ResourceRecord → Message
reply_with rrs = record { rcode = success; authoritative = true; answer = rrs; ns = [] }

abbrev pub is_empty : List ResourceRecord → Bool
is_empty [] = true
is_empty (rr ∷ rrs) = false

abbrev or_records : List ResourceRecord → List ResourceRecord → List ResourceRecord
or_records [] auto = auto
or_records (rr ∷ rrs) auto = rr ∷ rrs

-- `cnameRRs[0].(*mdns.CNAME)`
abbrev pub target_of : List ResourceRecord → Option String
target_of [] = none
target_of (rr ∷ rrs) = elim (rr.rdata) [ cname_data target ↦ some target | _ ↦ none ]

module _ (x : Texts) where
  -- NS records at the apex of a zone, made up if there are none.
  unfoldable pub apex_ns : ZoneData → String → Message
  apex_ns zd qname = reply_with (
      or_records (find_records qname 2 zd.records) (
        record {
          name = zd.name;
          rtype = 2;
          ttl = zd.ttl;
          rdata = ns_data (x.append "ns1." zd.name);
        }
        ∷ []))

  abbrev chased : ℕ → List Bucket → Option String → List ResourceRecord
  chased qtype buckets none = []
  chased qtype buckets (some target) = find_records (x.to_lower target) qtype buckets

  -- No record has the name and the type, nor an alias: "NOERROR" if the name is there.
  unfoldable pub negative : ZoneData → String → Message
  negative zd qname = record {
    rcode = if name_exists_in_zone qname zd.records then success else name_error;
    authoritative = true;
    answer = [];
    ns = build_soa x zd ∷ [];
  }

  -- From "Lookup records" on.
  unfoldable pub look_up : ZoneData → String → ℕ → Message
  unfolding negative
  look_up zd qname qtype =
      let rrs = find_records qname qtype zd.records in
      let aliases = find_records qname 5 zd.records in
      if is_empty rrs && not (qtype == 5) && not (is_empty aliases)
      then reply_with (aliases ++ chased qtype zd.records (target_of aliases))
      else (if not (is_empty rrs) then reply_with rrs else negative zd qname)

  unfoldable pub answer_zone : Server → ZoneData → String → ℕ → Option Ip → Reply
  unfolding apex_ns look_up
  answer_zone s zd qname qtype client =
      if qtype == 252
      then transfer (handle_axfr x s zd client)
      else (if qtype == 6
          then message (reply_with (build_soa x zd ∷ []))
          else (if qtype == 2 && str_eq qname (x.to_lower zd.name)
              then message (apex_ns zd qname)
              else message (look_up zd qname qtype)))

  abbrev in_zone : Server → Option ZoneData → Question → Option Ip → Reply
  in_zone s none q client =
      message (record { rcode = refused; authoritative = false; answer = []; ns = [] })
  in_zone s (some zd) q client = answer_zone s zd (x.to_lower q.name) q.qtype client

  abbrev first_question : Server → List Question → Option Ip → Reply
  first_question s [] client =
      message (record { rcode = server_failure; authoritative = true; answer = []; ns = [] })
  first_question s (q ∷ rest) client = in_zone s (find_zone x (x.to_lower q.name) s) q client

  -- The reply, and the server with its counter of queries.
  unfoldable pub handle_query : List Question → Option Ip → Server → Reply × Server
  unfolding answer_zone
  handle_query questions client s = (
    first_question s questions client,
    record s { queries_total = (s.queries_total + 1) % 2 ^ 64 },
  )
