-- ===== src/Dns/Config/Loops.antt =====
-- The zones that the loops of `GetNodeDNSConfig` gather.
use edgefabric.Prelude.{
  ◌≡◌, refl, sym, ◌∙◌, ap, subst, Bool, true, false, ◌||◌, ◌==◌, ==_iff, Option, none, some, List,
  [], ◌∷◌, ◌++◌, any, All, All-append, arith,
}
use edgefabric.Exec.{call}
use edgefabric.Exec.Hoare.{Hoare, Hoare-call, Hoare-bind}
use edgefabric.Exec.Sorting.{Sorting}
use edgefabric.Domain.{Uuid}
use edgefabric.Domain.Node.{NodeGroup}
use edgefabric.Dns.Types.{Zone, Record, ZoneStatus, is_active}
use edgefabric.DnsServer.Zones.{ZoneWithRecords}
use edgefabric.Dns.Config.{
  Tables, Gathered, list_zones, records_of, list_zone_records, is_in_group, is_wanted, add_zone,
  visit_zone, each_zone, each_group,
}

-- The zone is active and assigned to one of the groups, and the records are those of the zone.
pub record Assigned (record_order : Sorting Record) (groups : List NodeGroup) (t : Tables)
    (z : ZoneWithRecords) : Type 0 where
  pub active : z.zone.status ≡ ZoneStatus.active
  pub group : (id : Uuid) × (z.zone.node_group_id ≡ some id) × (any (λ g. g.id == id) groups ≡ true)
  pub rows : z.records ≡ records_of record_order z.zone.id t

-- No two zones of the list have the same identifier.
abbrev pub Distinct : List ZoneWithRecords → Type 0
Distinct [] = Unit
Distinct (z ∷ l) = (any (λ w. w.zone.id == z.zone.id) l ≡ false) × Distinct l

any-snoc :
    {A : Type 0} (q : A → Bool) (l : List A) (a : A) → any q (l ++ (a ∷ [])) ≡ (any q l || q a)
any-snoc q [] a = ground arith
any-snoc q (b ∷ l) a = ground (arith, any-snoc q l a)

or_comm : (b c : Bool) → (b || c) ≡ (c || b)
or_comm true true = refl
or_comm true false = refl
or_comm false true = refl
or_comm false false = refl

Distinct-snoc :
    (l : List ZoneWithRecords) (z : ZoneWithRecords)
    → Distinct l
    → any (λ w. w.zone.id == z.zone.id) l ≡ false
    → Distinct (l ++ (z ∷ []))
Distinct-snoc [] z d h = (refl, tt)
Distinct-snoc (w ∷ l) z d h = (
  any-snoc (λ v. v.zone.id == w.zone.id) l z ∙ ground (arith, d.0),
  Distinct-snoc l z d.1 (ground arith),
)

module _ (zone_order : Sorting Zone) (record_order : Sorting Record) (groups : List NodeGroup)
    (old : Tables) where
  -- What holds of the local variables between two steps of the loops.
  pub record Good (g : Gathered) (t : Tables) : Type 0 where
    pub same : t ≡ old
    pub distinct : Distinct g.zones
    pub seen_all : (id : Uuid) → any (λ w. w.zone.id == id) g.zones ≡ any (λ i. i == id) g.seen
    pub assigned : All (Assigned record_order groups old) g.zones

  abbrev pub Same : Tables → Type 0
  Same t = t ≡ old

  wanted_parts :
      (group : NodeGroup) (z : Zone) (seen : List Uuid)
      → is_wanted group z seen ≡ true
      → (is_in_group z.node_group_id group.id ≡ true)
        × (z.status ≡ ZoneStatus.active)
        × (any (λ id. id == z.id) seen ≡ false)
  wanted_parts group z seen h = (ground arith, active z.status (ground arith), ground arith)
    where
      active : (s : ZoneStatus) → is_active s ≡ true → s ≡ ZoneStatus.active
      active ZoneStatus.active e = refl
      active ZoneStatus.disabled e = cc
      active (ZoneStatus.other s) e = cc

  in_group :
      (group : NodeGroup) (o : Option Uuid)
      → any (λ g. g.id == group.id) groups ≡ true
      → is_in_group o group.id ≡ true
      → (id : Uuid) × (o ≡ some id) × (any (λ g. g.id == id) groups ≡ true)
  in_group group none m h = cc
  in_group group (some id) m h =
      let e : id ≡ group.id = (==_iff id group.id).0 h in
      (id, refl, subst (λ i. any (λ g. g.id == i) groups ≡ true) (sym e) m)

  Good-add :
      (group : NodeGroup) (z : Zone) (g : Gathered) (t : Tables)
      → any (λ h. h.id == group.id) groups ≡ true
      → is_wanted group z g.seen ≡ true
      → Good g t
      → Good
          (record {
            zones = g.zones ++ record { zone = z; records = records_of record_order z.id t } ∷ [];
            seen = z.id ∷ g.seen;
          })
          t
  Good-add group z g t m w h =
      let (inside, active, fresh) = wanted_parts group z g.seen w in
      let new : ZoneWithRecords = record { zone = z; records = records_of record_order z.id t } in
      record {
        same = h.same;
        distinct = Distinct-snoc g.zones new h.distinct (h.seen_all z.id ∙ fresh);
        seen_all = λ id.
            any-snoc (λ v. v.zone.id == id) g.zones new
            ∙ ap (λ b. b || (z.id == id)) (h.seen_all id)
            ∙ or_comm (any (λ i. i == id) g.seen) (z.id == id);
        assigned = All-append (Assigned record_order groups old) g.zones (new ∷ []) h.assigned (
          record {
            active = active;
            group = in_group group z.node_group_id m inside;
            rows = ap (records_of record_order z.id) h.same;
          },
          tt,
        );
      }

  visit_zone-Good :
      (group : NodeGroup) (z : Zone) (g : Gathered) (b : Bool)
      → any (λ h. h.id == group.id) groups ≡ true
      → is_wanted group z g.seen ≡ b
      → Hoare (Good g) Same Good (visit_zone zone_order record_order b z g)
  unfolding visit_zone add_zone list_zone_records
  visit_zone-Good group z g false m w = λ db h. h
  visit_zone-Good group z g true m w =
      Hoare-bind (Good g) Same (λ records t. Good g t × (records ≡ records_of record_order z.id t))
        Good (call (list_zone_records record_order z.id)) _
        (Hoare-call (Good g) Same
          (λ records t. Good g t × (records ≡ records_of record_order z.id t))
          (list_zone_records record_order z.id) (λ t h. h.same) (λ t h. (h, refl)))
        (λ records db h.
          subst
            (λ r.
              Good
                (record {
                  zones = g.zones ++ record { zone = z; records = r } ∷ [];
                  seen = z.id ∷ g.seen;
                })
                db.tables)
            (sym h.1) (Good-add group z g db.tables m w h.0))

  each_zone-Good :
      (group : NodeGroup) (zones : List Zone) (g : Gathered)
      → any (λ h. h.id == group.id) groups ≡ true
      → Hoare (Good g) Same Good (each_zone zone_order record_order group zones g)
  unfolding each_zone
  each_zone-Good group [] g m = λ db h. h
  each_zone-Good group (z ∷ rest) g m =
      Hoare-bind (Good g) Same Good Good
        (visit_zone zone_order record_order (is_wanted group z g.seen) z g)
        (each_zone zone_order record_order group rest)
        (visit_zone-Good group z g (is_wanted group z g.seen) m refl)
        (λ next. each_zone-Good group rest next m)

  pub each_group-Good :
      (l : List NodeGroup) (g : Gathered)
      → All (λ group. any (λ h. h.id == group.id) groups ≡ true) l
      → Hoare (Good g) Same Good (each_group zone_order record_order l g)
  unfolding each_group list_zones
  each_group-Good [] g m = λ db h. h
  each_group-Good (group ∷ l) g m =
      Hoare-bind (Good g) Same (λ zones. Good g) Good (call (list_zones zone_order group.tenant_id))
        _
        (Hoare-call (Good g) Same (λ zones. Good g) (list_zones zone_order group.tenant_id)
          (λ t h. h.same) (λ t h. h))
        (λ zones.
          Hoare-bind (Good g) Same Good Good (each_zone zone_order record_order group zones g)
            (each_group zone_order record_order l) (each_zone-Good group zones g m.0)
            (λ next. each_group-Good l next m.1))
