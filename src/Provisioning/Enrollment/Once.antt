-- ===== src/Provisioning/Enrollment/Once.antt =====
-- A token allows one enrollment.
use edgefabric.Prelude.{
  ◌≡◌, refl, sym, ◌∙◌, subst, String, true, false, some, [], ◌∷◌, Option-cases, inl, inr, ap,
}
use edgefabric.Exec.{Result, ok, err, Db, call, ◌>>=◌}
use edgefabric.Exec.Hoare.{Post, Hoare, Hoare-call, Hoare-bind}
use edgefabric.Domain.Node.{Node, NodeStatus}
use edgefabric.Provisioning.Overlay.{Parsers}
use edgefabric.Provisioning.Enrollment.{
  Hub, Printers, Drawn, EnrollmentResult, validate_token, enroll_node, complete_enrollment,
}
use edgefabric.Provisioning.PeerStore.{Token, Tables, find_token, get_token, get_node, find_node}
use edgefabric.Provisioning.Enrollment.Steps.{
  Live, Spent, Valid, Validated, find_node-id, validate_token-Valid,
}
use edgefabric.Provisioning.Enrollment.Enrolled.{Enrolled, enroll_node-Enrolled}

module _ (p : Parsers) (pr : Printers) (hub : Hub) (d : Drawn) (text : String) where
  -- A token that was in the table, unused and not expired when it was checked; it is used now. The
  -- node that it names is online, with the overlay address of the result.
  pub record Complete (old : Tables) (r : EnrollmentResult) (t : Tables) : Type 0 where
    pub token : Token
    pub valid : Valid d.checked_at text old token
    pub spent : Spent text t
    pub target : r.node_id ≡ token.target_id
    pub online :
        (n : Node) × (find_node token.target_id t.nodes ≡ some n)
        × (n.status ≡ NodeStatus.online)
        × (n.wireguard_ip ≡ r.wireguard_ip)

  -- If `CompleteEnrollment` succeeds, the token was in the table, unused, and not expired when it was
  -- checked; it is used now, and the node that it names is online with the overlay address of the
  -- result.
  pub complete_enrollment-Complete :
      (db : Db Tables)
      → Post
          (λ t. Unit)
          (Complete db.tables)
          (complete_enrollment p pr hub d text db).0
          (complete_enrollment p pr hub d text db).1.tables
  unfolding complete_enrollment get_node
  complete_enrollment-Complete db =
      Hoare-bind (λ t. t ≡ db.tables) (λ t. Unit) (Validated d.checked_at text db.tables)
        (Complete db.tables) (validate_token d.checked_at text) _
        (validate_token-Valid d.checked_at text db.tables) with_token db refl
    where
      Node_found : Token → Node → Tables → Type 0
      Node_found k n t = Live text k t × (n.id ≡ k.target_id) × Valid d.checked_at text db.tables k

      get_node-found :
          (k : Token) (t : Tables)
          → Validated d.checked_at text db.tables k t
          → Post (λ u. Unit) (Node_found k) (get_node k.target_id t).0 (get_node k.target_id t).1
      get_node-found k t (same, v) = elim (Option-cases (find_node k.target_id t.nodes)) [
        | inl gone ↦ rw gone tt
        | inr (n, e) ↦ rw e (
          (ap (λ x. find_token text x.tokens) same ∙ v.stored, v.unused),
          find_node-id k.target_id n t.nodes e,
          v,
        )
      ]

      complete :
          (k : Token) (r : Result EnrollmentResult) (t : Tables)
          → Valid d.checked_at text db.tables k
          → Post (λ u. Unit) (Enrolled p pr hub text k k.target_id) r t
          → Post (λ u. Unit) (Complete db.tables) r t
      complete k (ok x) t v (s, e, n) = record {
        token = k;
        valid = v;
        spent = s;
        target = e;
        online = n;
      }
      complete k (err x) t v h = tt

      with_token :
          (k : Token)
          → Hoare
              (Validated d.checked_at text db.tables k)
              (λ t. Unit)
              (Complete db.tables)
              (call (get_node k.target_id) >>= λ n. enroll_node p pr hub d k n)
      with_token k =
          Hoare-bind (Validated d.checked_at text db.tables k) (λ t. Unit) (Node_found k)
            (Complete db.tables) (call (get_node k.target_id)) (enroll_node p pr hub d k)
            (Hoare-call (Validated d.checked_at text db.tables k) (λ t. Unit) (Node_found k)
              (get_node k.target_id) (λ t h. tt) (get_node-found k))
            (λ n now h.
              complete k _ _ h.2 (enroll_node-Enrolled p pr hub text k d n k.target_id h.1 now h.0))

-- The operation returned an error and wrote nothing.
abbrev pub Refused : {A : Type 0} → Db Tables → Result A × Db Tables → Type 0
Refused old (ok a, db) = ⊥
Refused old (err e, db) = db.tables ≡ old.tables

module _ (p : Parsers) (pr : Printers) (hub : Hub) (d : Drawn) (text : String) where
  Spent-Refused :
      (db : Db Tables) → Spent text db.tables → Refused db (complete_enrollment p pr hub d text db)
  unfolding complete_enrollment validate_token get_token
  Spent-Refused db (k, stored, used) =
      elim (db.faults)
        as (λ x. Refused db (complete_enrollment p pr hub d text (record db { faults = x }))) [
          | [] ↦ rw (stored, used) refl
          | true ∷ rest ↦ refl
          | false ∷ [] ↦ rw (stored, used) refl
          | false ∷ b ∷ rest ↦ rw (stored, used) refl
        ]

module _ (p : Parsers) (pr : Printers) (hub : Hub) (d later : Drawn) (text : String) where
  -- After `CompleteEnrollment` has succeeded, another one with the same token returns an error and
  -- writes nothing.
  pub complete_once :
      {r : EnrollmentResult} (db next : Db Tables)
      → (complete_enrollment p pr hub d text db).0 ≡ ok r
      → next.tables ≡ (complete_enrollment p pr hub d text db).1.tables
      → Refused next (complete_enrollment p pr hub later text next)
  complete_once {r = r} db next success same =
      let now : Tables = (complete_enrollment p pr hub d text db).1.tables in
      let done : Complete p pr hub d text db.tables r now =
        subst (λ x. Post (λ t. Unit) (Complete p pr hub d text db.tables) x now) success
          (complete_enrollment-Complete p pr hub d text db) in
      Spent-Refused p pr hub later text next (subst (λ x. Spent text x) (sym same) done.spent)
