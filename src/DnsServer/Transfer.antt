-- ===== src/DnsServer/Transfer.antt =====
-- internal/dnsserver/axfr.go: the transfer of a zone. Envelopes are lists of records.
pub mod Content
use edgefabric.Prelude.{
  ℕ, suc, ◌+◌, String, Bool, true, false, not, leb, Option, none, some, List, [], ◌∷◌, ◌++◌, length,
  if◌then◌else◌,
}
use edgefabric.Provisioning.Overlay.{Ip}
use edgefabric.DnsServer.Records.{Texts, ResourceRecord, soa_data, Bucket}
use edgefabric.DnsServer.Zones.{ZoneData, Server}

pub data Outcome : Type 0 where
  refuse : Outcome
  envelopes : List (List ResourceRecord) → Outcome

unfoldable pub is_transfer_allowed : List (Ip → Bool) → Ip → Bool
is_transfer_allowed [] ip = false
is_transfer_allowed (cidr ∷ rest) ip = if cidr ip then true else is_transfer_allowed rest ip

-- `if len(batch) >= 100 { send; batch = nil }`, with the sent batches in front of what `rest` sends.
abbrev pub full : List ResourceRecord → Bool
full batch = leb 100 (length batch)

-- The records of the map, one bucket after the other, as `for` visits them.
unfoldable pub flatten : List Bucket → List ResourceRecord
flatten [] = []
flatten (b ∷ buckets) = b.rrs ++ flatten buckets

abbrev pub last_batch : List ResourceRecord → List (List ResourceRecord)
last_batch [] = []
last_batch (rr ∷ batch) = (rr ∷ batch) ∷ []

unfoldable pub send_all : List ResourceRecord → List ResourceRecord → List (List ResourceRecord)
send_all batch [] = last_batch batch
send_all batch (rr ∷ rrs) =
    let next = batch ++ (rr ∷ []) in
    let sent = next ∷ send_all [] rrs in
    let kept = send_all next rrs in if full next then sent else kept

module _ (x : Texts) where
  unfoldable pub build_soa : ZoneData → ResourceRecord
  build_soa zd = record {
    name = zd.name;
    rtype = 6;
    ttl = zd.ttl;
    rdata =
        soa_data (x.append "ns1." zd.name) (x.append "hostmaster." zd.name) zd.serial
          (3600 ∷ 900 ∷ 604800 ∷ 300 ∷ []);
  }

  abbrev is_empty : List (Ip → Bool) → Bool
  is_empty [] = true
  is_empty (c ∷ l) = false

  unfoldable pub build_transfer : ZoneData → List (List ResourceRecord)
  unfolding build_soa send_all flatten
  build_transfer zd =
      (build_soa zd ∷ []) ∷ (send_all [] (flatten zd.records) ++ ((build_soa zd ∷ []) ∷ []))

  -- The address of the client, if it can be read.
  abbrev allowed_for : ZoneData → Option Ip → Bool
  allowed_for zd none = false
  allowed_for zd (some ip) = is_transfer_allowed zd.transfer_allowed ip

  unfoldable pub handle_axfr : Server → ZoneData → Option Ip → Outcome
  unfolding is_transfer_allowed build_transfer
  handle_axfr s zd client =
      if not s.axfr_enabled
      then refuse
      else (if is_empty zd.transfer_allowed
          then refuse
          else (if not (allowed_for zd client) then refuse else envelopes (build_transfer zd)))
