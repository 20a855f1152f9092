-- ===== src/DnsServer/Zones/Found.antt =====
-- The zone that is found for a name.
use edgefabric.Prelude.{
  ◌≤◌, ◌≡◌, ◌⊎◌, refl, sym, subst, String, Bool, true, false, str_eq, Option, none, some, List, [],
  ◌∷◌, inl, inr, arith, Bool-cases, if◌then◌else◌, All, eq_iff,
}
use edgefabric.Provisioning.Overlay.{Ip}
use edgefabric.DnsServer.Records.{Texts}
use edgefabric.DnsServer.Zones.{
  ZoneWithRecords, ZoneData, Server, get_zone, build_zone_data, sort_by_length_desc, zone_map,
  zone_names, reconcile, matches, first_match, in_zones, find_zone,
}
use edgefabric.DnsServer.Zones.Match.{
  Longest, first_match-Longest, Falling-sort_by_length_desc, All-sort_by_length_desc,
  of_sort_by_length_desc,
}

-- One of the zones of a configuration.
abbrev pub Among : ZoneWithRecords → List ZoneWithRecords → Type 0
Among z [] = ⊥
Among z (w ∷ config) = (z ≡ w) ⊎ Among z config

module _ (x : Texts) (parse_cidrs : List String → List (Ip → Bool)) where
  abbrev Built : List ZoneWithRecords → List (String × ZoneData) → String → Type 0
  Built config zones name =
      (z : ZoneWithRecords) × (get_zone name zones ≡ some (build_zone_data x parse_cidrs z))
      × (x.to_lower z.zone.name ≡ name)
      × Among z config

  abbrev front : ZoneWithRecords → List (String × ZoneData) → List (String × ZoneData)
  front w zones = (x.to_lower w.zone.name, build_zone_data x parse_cidrs w) ∷ zones

  Built-front :
      (config : List ZoneWithRecords) (w : ZoneWithRecords) (zones : List (String × ZoneData))
      → Among w config
      → Built config (front w zones) (x.to_lower w.zone.name)
  unfolding get_zone
  Built-front config w zones h =
      let here : str_eq (x.to_lower w.zone.name) (x.to_lower w.zone.name) ≡ true =
        ground (arith, eq_iff (x.to_lower w.zone.name) (x.to_lower w.zone.name)) in
      (w, rw here refl, refl, h)

  Built-keep :
      (config : List ZoneWithRecords) (w : ZoneWithRecords) (zones : List (String × ZoneData))
      (name : String)
      → Among w config
      → Built config zones name
      → Built config (front w zones) name
  unfolding get_zone
  Built-keep config w zones name h (z, e, f, g) =
      elim (Bool-cases (str_eq (x.to_lower w.zone.name) name)) [
        | inl same ↦
            let same_name : x.to_lower w.zone.name ≡ name =
              (eq_iff (x.to_lower w.zone.name) name).0 same in
            (w, rw same refl, same_name, h)
        | inr apart ↦ (z, rw apart e, f, g)
      ]

  zone_map-keep :
      (all config : List ZoneWithRecords) (zones : List (String × ZoneData)) (name : String)
      → ((w : ZoneWithRecords) → Among w config → Among w all)
      → Built all zones name
      → Built all (zone_map x parse_cidrs config zones) name
  unfolding zone_map
  zone_map-keep all [] zones name sub b = b
  zone_map-keep all (w ∷ config) zones name sub b =
      zone_map-keep all config (front w zones) name (λ v h. sub v (inr h))
        (Built-keep all w zones name (sub w (inl refl)) b)

  zone_map-Built :
      (all config : List ZoneWithRecords) (zones : List (String × ZoneData))
      → ((w : ZoneWithRecords) → Among w config → Among w all)
      → All (Built all (zone_map x parse_cidrs config zones)) (zone_names x config)
  unfolding zone_map zone_names
  zone_map-Built all [] zones sub = tt
  zone_map-Built all (w ∷ config) zones sub = (
    zone_map-keep all config (front w zones) (x.to_lower w.zone.name) (λ v h. sub v (inr h))
        (Built-front all w zones (sub w (inl refl))),
    zone_map-Built all config (front w zones) (λ v h. sub v (inr h)),
  )

  first_match-All :
      (P : String → Type 0) (qname : String) (l : List String) (n : String)
      → All P l
      → first_match x qname l ≡ some n
      → P n
  unfolding first_match
  first_match-All P qname [] n h e = cc
  first_match-All P qname (m ∷ l) n h e =
      pick (matches x qname m) e (first_match-All P qname l n h.1)
    where
      some_eq : {a b : String} → some a ≡ some b → a ≡ b
      some_eq e = cc

      pick :
          (b : Bool)
          → (if b then some m else first_match x qname l) ≡ some n
          → (first_match x qname l ≡ some n → P n)
          → P n
      pick true e later = subst P (some_eq e) h.0
      pick false e later = later e

  -- The zone of the longest name that the queried name ends in; none if there is no such zone.
  abbrev pub MostSpecific : String → List ZoneWithRecords → Option ZoneData → Type 0
  MostSpecific qname config none = All (λ name. matches x qname name ≡ false) (zone_names x config)
  MostSpecific qname config (some zd) =
      (z : ZoneWithRecords) × (zd ≡ build_zone_data x parse_cidrs z)
      × Among z config
      × (matches x qname (x.to_lower z.zone.name) ≡ true)
      × All (λ name. matches x qname name ≡ true → x.size name ≤ x.size (x.to_lower z.zone.name))
          (zone_names x config)

  found-MostSpecific :
      (qname : String) (config : List ZoneWithRecords) (o : Option String)
      → first_match x qname (sort_by_length_desc x (zone_names x config)) ≡ o
      → Longest x qname (sort_by_length_desc x (zone_names x config)) o
      → MostSpecific qname config (in_zones x (zone_map x parse_cidrs config []) o)
  unfolding Longest
  found-MostSpecific qname config none e h =
      of_sort_by_length_desc x (λ name. matches x qname name ≡ false) (zone_names x config) h
  found-MostSpecific qname config (some n) e (hit, longest) = built (
      first_match-All (Built config (zone_map x parse_cidrs config [])) qname
        (sort_by_length_desc x (zone_names x config)) n
        (All-sort_by_length_desc x (Built config (zone_map x parse_cidrs config []))
          (zone_names x config) (zone_map-Built config config [] (λ w h. h)))
        e)
    where
      built :
          Built config (zone_map x parse_cidrs config []) n
          → MostSpecific qname config (get_zone n (zone_map x parse_cidrs config []))
      built (z, at, name, h) = rw at (
        z,
        refl,
        h,
        subst (λ m. matches x qname m ≡ true) (sym name) hit,
        subst
            (λ m.
              All (λ name. matches x qname name ≡ true → x.size name ≤ x.size m)
                (zone_names x config))
            (sym name)
            (of_sort_by_length_desc x (λ name. matches x qname name ≡ true → x.size name ≤ x.size n)
              (zone_names x config) longest),
      )

  -- After `Reconcile` on a running server, the zone that is found for a name is one of the
  -- configuration, its name is the queried name or an ending of it after a dot, and no zone with a
  -- longer name is so; if none is found, no zone of the configuration is so.
  pub find_zone-MostSpecific :
      (qname : String) (config : List ZoneWithRecords) (s : Server)
      → s.running ≡ true
      → MostSpecific qname config (find_zone x qname (reconcile x parse_cidrs (some config) s).1)
  unfolding find_zone reconcile
  find_zone-MostSpecific qname config s running = rw running (
      found-MostSpecific qname config
        (first_match x qname (sort_by_length_desc x (zone_names x config))) refl
        (first_match-Longest x qname (sort_by_length_desc x (zone_names x config))
          (Falling-sort_by_length_desc x (zone_names x config))))
