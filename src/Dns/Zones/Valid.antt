-- ===== src/Dns/Zones/Valid.antt =====
-- Validity of the stored zones, and the zones of the records.
use edgefabric.Prelude.{
  ◌≡◌, ◌⊎◌, inl, inr, refl, ◌∙◌, ap, subst, Bool, true, false, not, none, some, List, [], ◌∷◌,
  is_some, select, ◌==◌, All, arith, Bool-cases,
}
use edgefabric.Exec.{Db, found}
use edgefabric.Exec.Reads.{call-read, found-ok}
use edgefabric.Domain.{Uuid}
use edgefabric.Dns.Types.{Zone, Record, CreateZoneRequest, UpdateZoneRequest}
use edgefabric.Dns.Validation.{Platform, validate_zone_name, validate_transfer_allowed_ips}
use edgefabric.Dns.Store.{Tables, find_zone, get_zone}
use edgefabric.Dns.Zones.{
  stored_zone, zone_of, patch_zone, replace_zone, name_fits, ips_fit, create_zone, update_zone,
  delete_zone, create, save, update, delete,
}

module _ (p : Platform) where
  -- A zone with a valid name and valid transfer addresses.
  abbrev pub ValidZone : Zone → Type 0
  ValidZone z =
      (validate_zone_name p z.name ≡ none)
      × (validate_transfer_allowed_ips p z.transfer_allowed_ips ≡ none)

  abbrev pub ValidZones : Tables → Type 0
  ValidZones t = All ValidZone t.zones

  find-ValidZone :
      (id : Uuid) (z : Zone) (l : List Zone)
      → All ValidZone l
      → find_zone id l ≡ some z
      → ValidZone z
  unfolding find_zone
  find-ValidZone id z [] h k = cc
  find-ValidZone id z (s ∷ l) h k = elim (Bool-cases (s.id == id)) [
    | inl e ↦ subst ValidZone (first e) h.0
    | inr e ↦ find-ValidZone id z l h.1 (later e)
  ]
    where
      first : (s.id == id) ≡ true → s ≡ z
      first e = ground arith

      later : (s.id == id) ≡ false → find_zone id l ≡ some z
      later e = ground arith

  replace-Valid :
      (z : Zone) (l : List Zone) → ValidZone z → All ValidZone l → All ValidZone (replace_zone z l)
  unfolding replace_zone
  replace-Valid z [] k h = tt
  replace-Valid z (s ∷ l) k h = elim (Bool-cases (s.id == z.id)) [
    | inl e ↦ rw e (k, replace-Valid z l k h.1)
    | inr e ↦ rw e (h.0, replace-Valid z l k h.1)
  ]

  select-Valid : (q : Zone → Bool) (l : List Zone) → All ValidZone l → All ValidZone (select q l)
  select-Valid q [] h = tt
  select-Valid q (s ∷ l) h = elim (Bool-cases (q s)) [
    | inl e ↦ rw e (h.0, select-Valid q l h.1)
    | inr e ↦ rw e (select-Valid q l h.1)
  ]

  create_tables :
      (id : Uuid) (req : CreateZoneRequest) (db : Db Tables)
      → let u = (create p id req db).1.tables in
        (u.zones ≡ db.tables.zones)
        ⊎ (validate_zone_name p req.name ≡ none)
          × (validate_transfer_allowed_ips p req.transfer_allowed_ips ≡ none)
          × (u.zones ≡ stored_zone (zone_of id req) ∷ db.tables.zones)
  unfolding create create_zone
  create_tables id req db = ground arith

  -- `CreateZone` keeps every stored zone valid, on success and on every failure.
  pub create-ValidZones :
      (id : Uuid) (req : CreateZoneRequest) (db : Db Tables)
      → ValidZones db.tables
      → ValidZones (create p id req db).1.tables
  create-ValidZones id req db h = elim (create_tables id req db) [
    | inl same ↦ rw same h
    | inr (name, ips, grown) ↦ rw grown ((name, ips), h)
  ]

  patched :
      (req : UpdateZoneRequest) (z : Zone)
      → name_fits p req.name ≡ true
      → ips_fit p req.transfer_allowed_ips ≡ true
      → ValidZone z
      → ValidZone (patch_zone req z)
  patched req z n i h = ground arith

  save_zones :
      (req : UpdateZoneRequest) (z : Zone) (db : Db Tables)
      → let u = (save p req z db).1.tables in
        (u.zones ≡ db.tables.zones)
        ⊎ (name_fits p req.name ≡ true)
          × (ips_fit p req.transfer_allowed_ips ≡ true)
          × (u.zones ≡ replace_zone (patch_zone req z) db.tables.zones)
  unfolding save update_zone
  save_zones req z db = ground arith

  save-ValidZones :
      (req : UpdateZoneRequest) (z : Zone) (db : Db Tables)
      → ValidZone z
      → ValidZones db.tables
      → ValidZones (save p req z db).1.tables
  save-ValidZones req z db k h = elim (save_zones req z db) [
    | inl same ↦ rw same h
    | inr (n, i, changed) ↦
        rw changed (replace-Valid (patch_zone req z) db.tables.zones (patched req z n i k) h)
  ]

  -- `UpdateZone` keeps every stored zone valid, on success and on every failure.
  pub update-ValidZones :
      (id : Uuid) (req : UpdateZoneRequest) (db : Db Tables)
      → ValidZones db.tables
      → ValidZones (update p id req db).1.tables
  unfolding update get_zone
  update-ValidZones id req db h =
      elim (call-read (λ t. found (find_zone id t.zones)) (save p req) db) [
        | inl (e, failed, same) ↦ rw same h
        | inr (old, e, (f, rest)) ↦ rw rest (
            save-ValidZones req old (record { tables = db.tables; faults = f })
              (find-ValidZone id old db.tables.zones h (found-ok _ old e)) h)
      ]

-- Every record belongs to a zone that is there.
abbrev pub Owned : Tables → Type 0
Owned t = All (λ r. is_some (find_zone r.zone_id t.zones) ≡ true) t.records

find-remove :
    (id j : Uuid) (l : List Zone)
    → (j == id) ≡ false
    → find_zone j (select (λ z. not (z.id == id)) l) ≡ find_zone j l
unfolding find_zone
find-remove id j [] h = refl
find-remove id j (z ∷ l) h = ground (arith, find-remove id j l h)

remove-Owned :
    (id : Uuid) (zones : List Zone) (l : List Record)
    → All (λ (r : Record). is_some (find_zone r.zone_id zones) ≡ true) l
    → All
        (λ (r : Record).
          is_some (find_zone r.zone_id (select (λ z. not (z.id == id)) zones)) ≡ true)
        (select (λ r. not (r.zone_id == id)) l)
remove-Owned id zones [] h = tt
remove-Owned id zones (r ∷ l) h = elim (Bool-cases (r.zone_id == id)) [
  | inl e ↦ rw e (remove-Owned id zones l h.1)
  | inr e ↦ rw e (ap is_some (find-remove id r.zone_id zones e) ∙ h.0, remove-Owned id zones l h.1)
]

delete_tables :
    (id : Uuid) (db : Db Tables)
    → let u = (delete id db).1.tables in
      (u ≡ db.tables)
      ⊎ (u ≡ record {
        zones = select (λ (z : Zone). not (z.id == id)) db.tables.zones;
        records = select (λ (r : Record). not (r.zone_id == id)) db.tables.records;
      })
unfolding delete delete_zone
delete_tables id db = ground arith

-- `DeleteZone` leaves no record without a zone, on success and on every failure.
pub delete-Owned : (id : Uuid) (db : Db Tables) → Owned db.tables → Owned (delete id db).1.tables
delete-Owned id db h = elim (delete_tables id db) [
  | inl same ↦ rw same h
  | inr less ↦ rw less (remove-Owned id db.tables.zones db.tables.records h)
]

-- `DeleteZone` keeps every zone that stays valid, on success and on every failure.
pub delete-ValidZones :
    (p : Platform) (id : Uuid) (db : Db Tables)
    → ValidZones p db.tables
    → ValidZones p (delete id db).1.tables
delete-ValidZones p id db h = elim (delete_tables id db) [
  | inl same ↦ rw same h
  | inr less ↦ rw less (select-Valid p _ db.tables.zones h)
]
