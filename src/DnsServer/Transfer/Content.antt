-- ===== src/DnsServer/Transfer/Content.antt =====
-- What a transfer sends, and to whom.
use edgefabric.Prelude.{
  append-nil, append_assoc, ◌+◌, ◌≤◌, ◌≡◌, refl, sym, ◌∙◌, ap, Bool, true, false, not, Option, none,
  some, List, [], ◌∷◌, ◌++◌, length, All, All-append, arith, Bool-cases, inl, inr, if◌then◌else◌,
}
use edgefabric.Provisioning.Overlay.{Ip}
use edgefabric.DnsServer.Records.{Texts, ResourceRecord}
use edgefabric.DnsServer.Zones.{ZoneData, Server}
use edgefabric.DnsServer.Transfer.{
  Outcome, refuse, envelopes, is_transfer_allowed, full, flatten, last_batch, send_all, build_soa,
  build_transfer, is_empty, allowed_for, handle_axfr,
}

abbrev pub concat : List (List ResourceRecord) → List ResourceRecord
concat [] = []
concat (l ∷ ls) = l ++ concat ls

concat-append : (l m : List (List ResourceRecord)) → concat (l ++ m) ≡ concat l ++ concat m
concat-append [] m = refl
concat-append (a ∷ l) m =
    ap (λ r. a ++ r) (concat-append l m) ∙ sym (append_assoc a (concat l) (concat m))

concat-last_batch : (batch : List ResourceRecord) → concat (last_batch batch) ≡ batch
concat-last_batch [] = refl
concat-last_batch (rr ∷ batch) = append-nil (rr ∷ batch)

concat-send_all : (batch rrs : List ResourceRecord) → concat (send_all batch rrs) ≡ batch ++ rrs
unfolding send_all
concat-send_all batch [] = concat-last_batch batch ∙ sym (append-nil batch)
concat-send_all batch (rr ∷ rrs) = elim (Bool-cases (full (batch ++ (rr ∷ [])))) [
  | inl now ↦ rw now (
      ap (λ r. (batch ++ (rr ∷ [])) ++ r) (concat-send_all [] rrs)
      ∙ append_assoc batch (rr ∷ []) rrs)
  | inr wait ↦ rw wait (concat-send_all (batch ++ (rr ∷ [])) rrs ∙ append_assoc batch (rr ∷ []) rrs)
]

length-snoc : {A : Type 0} (l : List A) (a : A) → length (l ++ (a ∷ [])) ≡ length l + 1
length-snoc [] a = omega arith
length-snoc (b ∷ l) a = omega (arith, length-snoc l a)

-- Every envelope has 1 to 100 records.
abbrev pub Batched : List (List ResourceRecord) → Type 0
Batched ls = All (λ l. (1 ≤ length l) × (length l ≤ 100)) ls

last_batch-Batched : (batch : List ResourceRecord) → length batch ≤ 100 → Batched (last_batch batch)
last_batch-Batched [] h = tt
last_batch-Batched (rr ∷ batch) h = ((omega arith, h), tt)

send_all-Batched :
    (batch rrs : List ResourceRecord) → length batch ≤ 99 → Batched (send_all batch rrs)
unfolding send_all
send_all-Batched batch [] h = last_batch-Batched batch (omega arith)
send_all-Batched batch (rr ∷ rrs) h = elim (Bool-cases (full (batch ++ (rr ∷ [])))) [
  | inl now ↦ rw now (
    (omega (arith, length-snoc batch rr), omega (arith, length-snoc batch rr)),
    send_all-Batched [] rrs (omega arith),
  )
  | inr wait ↦
      let short : length (batch ++ (rr ∷ [])) ≤ 99 = ground arith in
      rw wait (send_all-Batched (batch ++ (rr ∷ [])) rrs short)
]

module _ (x : Texts) where
  -- Transfers are on, and the address of the client is in the ACL of the zone.
  abbrev pub Permitted : Server → ZoneData → Option Ip → Type 0
  Permitted s zd client =
      (s.axfr_enabled ≡ true)
      × ((ip : Ip) × (client ≡ some ip) × (is_transfer_allowed zd.transfer_allowed ip ≡ true))

  abbrev pub Transferred : Server → ZoneData → Option Ip → Outcome → Type 0
  Transferred s zd client refuse = ¬ (Permitted s zd client)
  Transferred s zd client (envelopes ls) =
      Permitted s zd client
      × (concat ls ≡ build_soa x zd ∷ flatten zd.records ++ (build_soa x zd ∷ []))
      × Batched ls

  concat-build_transfer :
      (zd : ZoneData)
      → concat (build_transfer x zd) ≡ build_soa x zd ∷ flatten zd.records ++ (build_soa x zd ∷ [])
  unfolding build_transfer
  concat-build_transfer zd =
      ap (λ r. build_soa x zd ∷ r)
        (concat-append (send_all [] (flatten zd.records)) ((build_soa x zd ∷ []) ∷ [])
          ∙ ap (λ r. r ++ (build_soa x zd ∷ [])) (concat-send_all [] (flatten zd.records)))

  build_transfer-Batched : (zd : ZoneData) → Batched (build_transfer x zd)
  unfolding build_transfer
  build_transfer-Batched zd = (
    (omega arith, omega arith),
    All-append (λ l. (1 ≤ length l) × (length l ≤ 100)) (send_all [] (flatten zd.records)) _
        (send_all-Batched [] (flatten zd.records) (omega arith)) ((omega arith, omega arith), tt),
  )

  listed_client :
      (zd : ZoneData) (client : Option Ip)
      → allowed_for x zd client ≡ true
      → (ip : Ip) × (client ≡ some ip) × (is_transfer_allowed zd.transfer_allowed ip ≡ true)
  listed_client zd none h = cc
  listed_client zd (some ip) h = (ip, refl, h)

  unlisted_client :
      (s : Server) (zd : ZoneData) (client : Option Ip)
      → allowed_for x zd client ≡ false
      → ¬ (Permitted s zd client)
  unlisted_client s zd client h (on, (ip, e, k)) = both (ap (allowed_for x zd) e)
    where
      both : allowed_for x zd client ≡ is_transfer_allowed zd.transfer_allowed ip → ⊥
      both e = cc

  empty_acl :
      (l : List (Ip → Bool)) (ip : Ip) → is_empty x l ≡ true → is_transfer_allowed l ip ≡ true → ⊥
  unfolding is_transfer_allowed
  empty_acl [] ip e h = cc
  empty_acl (c ∷ l) ip e h = cc

  contradiction : {b : Bool} → b ≡ true → b ≡ false → ⊥
  contradiction e f = cc

  -- A transfer is refused unless transfers are on and the address of the client is known and in a
  -- network of the ACL of the zone. If it is not refused, the envelopes have 1 to 100 records each,
  -- and together the SOA record, every record of the zone, and the SOA record again.
  pub handle_axfr-Transferred :
      (s : Server) (zd : ZoneData) (client : Option Ip)
      → Transferred s zd client (handle_axfr x s zd client)
  unfolding handle_axfr
  handle_axfr-Transferred s zd client =
      outcome s.axfr_enabled (is_empty x zd.transfer_allowed) (allowed_for x zd client) refl refl
        refl
    where
      outcome :
          (on nobody listed : Bool)
          → s.axfr_enabled ≡ on
          → is_empty x zd.transfer_allowed ≡ nobody
          → allowed_for x zd client ≡ listed
          → Transferred s zd client (
              if not on
              then refuse
              else (if nobody
                  then refuse
                  else (if not listed then refuse else envelopes (build_transfer x zd))))
      outcome false n l e f g = λ permitted. contradiction permitted.0 e
      outcome true true l e f g =
          λ permitted. empty_acl zd.transfer_allowed permitted.1.0 f permitted.1.2
      outcome true false true e f g =
          ((e, listed_client zd client g), concat-build_transfer zd, build_transfer-Batched zd)
      outcome true false false e f g = unlisted_client s zd client g
