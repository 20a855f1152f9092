-- ===== src/Provisioning/Enrollment/Separation.antt =====
-- No two peers share an overlay address.
use edgefabric.Prelude.{
  ℕ, ◌≤◌, ◌≡◌, refl, String, Bool, not, is_some, ltb, some, length, Bool-cases, Option-cases, inl,
  inr,
}
use edgefabric.Exec.{
  Error, Result, ok, err, not_found, already_exists, conflict, validation, invalid, unavailable,
  endless, Exec, Db, call, attempt, require, pure, ◌>>=◌,
}
use edgefabric.Exec.Hoare.{
  Post, Hoare, Keeps, Hoare-call, Hoare-bind, Hoare-require, Hoare-weaken, Keeps-attempt,
  Keeps-query, Keeps-bind,
}
use edgefabric.Domain.Node.{Node}
use edgefabric.Provisioning.Overlay.{Ip, v4, Net, Peer, Parsers}
use edgefabric.Provisioning.Overlay.Fresh.{Network4}
use edgefabric.Provisioning.Enrollment.{
  draw_keys, Hub, Printers, Drawn, EnrollmentResult, validate_token, make_peer, ensure_peer,
  go_online, result_of, finish, enroll_node, complete_enrollment,
}
use edgefabric.Provisioning.PeerStore.{
  Token, Tables, has_unused, mark_used, get_token, get_node, get_peer_of_node, update_node,
  affected, find_node,
}
use edgefabric.Provisioning.Enrollment.Steps.{draw_keys-Keeps}
use edgefabric.Provisioning.Enrollment.Apart.{Pairwise, Readable}
use edgefabric.Provisioning.Enrollment.Unique.{Before, make_peer-Separate}

Keeps-require :
    (P : Tables → Type 0) (b : Bool) (e : Error) → Keeps {T = Tables} {A = Unit {0}} P (require b e)
Keeps-require P b e = Hoare-require P P (λ u. P) b e (λ t h. h) (λ c t h. h)

validate_token-Keeps :
    (P : Tables → Type 0) (now : ℕ) (text : String) → Keeps P (validate_token now text)
unfolding validate_token get_token
validate_token-Keeps P now text =
    Keeps-bind P (call (get_token text)) _ (Keeps-query P (get_token text) (λ t. refl)) (λ k.
      Keeps-bind P _ _ (Keeps-require P (not (is_some k.used_at)) conflict) (λ u.
        Keeps-bind P (require (not (ltb k.expires_at now)) conflict) (λ v. pure k)
          (Keeps-require P (not (ltb k.expires_at now)) conflict) (λ v db h. h)))

module _ (p : Parsers) where
  mark_used-Separate :
      (k : Token) (now : ℕ) → Keeps (λ t. Pairwise p t.peers) (call (mark_used k.id now))
  unfolding mark_used
  mark_used-Separate k now = Hoare-call _ _ _ (mark_used k.id now) (λ t h. h) kept
    where
      kept :
          (t : Tables)
          → Pairwise p t.peers
          → Post
              (λ u. Pairwise p u.peers)
              (λ a u. Pairwise p u.peers)
              (mark_used k.id now t).0
              (mark_used k.id now t).1
      kept t h = elim (Bool-cases (has_unused k.id t.tokens)) [
        | inl one ↦ rw one h
        | inr gone ↦ rw gone h
      ]

  update_node-Separate : (n : Node) → Keeps (λ t. Pairwise p t.peers) (call (update_node n))
  unfolding update_node affected
  update_node-Separate n = Hoare-call _ _ _ (update_node n) (λ t h. h) kept
    where
      kept :
          (t : Tables)
          → Pairwise p t.peers
          → Post
              (λ u. Pairwise p u.peers)
              (λ a u. Pairwise p u.peers)
              (update_node n t).0
              (update_node n t).1
      kept t h = elim (Option-cases (find_node n.id t.nodes)) [
        | inl gone ↦ rw gone h
        | inr (old, e) ↦ rw e h
      ]

  finish-Separate :
      (d : Drawn) (k : Token) (m : Node) → Keeps (λ t. Pairwise p t.peers) (finish d k m)
  unfolding finish
  finish-Separate d k m =
      Keeps-bind (λ t. Pairwise p t.peers) (call (mark_used k.id d.used_at)) _
        (mark_used-Separate k d.used_at)
        (λ u.
          Keeps-bind (λ t. Pairwise p t.peers) (call (update_node (go_online m)))
            (λ v. pure (result_of m)) (update_node-Separate (go_online m)) (λ v db h. h))

module _ (p : Parsers) (pr : Printers) (hub : Hub) {base host_bits : ℕ}
    (network : Network4 base host_bits) {first : Ip} {net : Net}
    (parsed : p.parse_cidr hub.subnet ≡ some (first, net)) (is_base : net.ip ≡ v4 base)
    (bits : net.host_bits ≡ host_bits) (law : Readable p pr base host_bits) where
  abbrev B : Tables → Type 0
  B = Before p pr hub network parsed is_base bits law

  abbrev S : Tables → Type 0
  S t = Pairwise p t.peers

  -- Code before the peers are listed.
  early : {A : Type 0} (m : Exec (Db Tables) A) → Keeps B m → Hoare B S (λ a. B) m
  early m h = Hoare-weaken B B (λ a. B) S m (λ t k. k.0) h

  ensure_peer-Separate :
      (d : Drawn) (n : Node) (r : Result Peer) → Hoare B S (λ m. S) (ensure_peer p pr hub d n r)
  unfolding ensure_peer
  ensure_peer-Separate d n (ok old) db h = h.0
  ensure_peer-Separate d n (err not_found) db h =
      Hoare-bind B S (λ keys. B) (λ m. S) (draw_keys d) (make_peer p pr hub d n)
        (early (draw_keys d) (draw_keys-Keeps B d))
        (make_peer-Separate p pr hub network parsed is_base bits law d n) db h
  ensure_peer-Separate d n (err already_exists) db h = h.0
  ensure_peer-Separate d n (err conflict) db h = h.0
  ensure_peer-Separate d n (err validation) db h = h.0
  ensure_peer-Separate d n (err invalid) db h = h.0
  ensure_peer-Separate d n (err unavailable) db h = h.0
  ensure_peer-Separate d n (err endless) db h = h.0

  enroll_node-Separate :
      (d : Drawn) (k : Token) (n : Node) → Hoare B S (λ r. S) (enroll_node p pr hub d k n)
  unfolding enroll_node get_peer_of_node
  enroll_node-Separate d k n =
      Hoare-bind B S (λ old. B) (λ r. S) (attempt (call (get_peer_of_node n.id)))
        (λ old. ensure_peer p pr hub d n old >>= finish d k)
        (early (attempt (call (get_peer_of_node n.id))) (
          Keeps-attempt B (call (get_peer_of_node n.id))
            (Keeps-query B (get_peer_of_node n.id) (λ t. refl))))
        (λ old.
          Hoare-bind B S (λ m. S) (λ r. S) (ensure_peer p pr hub d n old) (finish d k)
            (ensure_peer-Separate d n old) (finish-Separate p d k))

  -- `CompleteEnrollment` keeps the rule that no two peers have the same IPv4 address among their
  -- allowed addresses, on success and on every failure, if the subnet is a network of at most
  -- 2 ^ 31 IPv4 addresses, the peers fit in the page that it loads, and the printed addresses are
  -- read back as what they are.
  pub complete_enrollment-Separate :
      (d : Drawn) (text : String) (db : Db Tables)
      → Pairwise p db.tables.peers
      → length db.tables.peers ≤ 10000
      → Pairwise p (complete_enrollment p pr hub d text db).1.tables.peers
  unfolding complete_enrollment get_node
  complete_enrollment-Separate d text db separate fits =
      either _ (complete_enrollment p pr hub d text db).1.tables (
        Hoare-bind B S (λ k. B) (λ r. S) (validate_token d.checked_at text) with_token
          (early (validate_token d.checked_at text) (validate_token-Keeps B d.checked_at text))
          (λ k.
            Hoare-bind B S (λ n. B) (λ r. S) (call (get_node k.target_id))
              (enroll_node p pr hub d k)
              (early (call (get_node k.target_id))
                (Keeps-query B (get_node k.target_id) (λ t. refl)))
              (enroll_node-Separate d k))
          db (separate, fits))
    where
      with_token : Token → Exec (Db Tables) EnrollmentResult
      with_token k = call (get_node k.target_id) >>= enroll_node p pr hub d k

      either : (r : Result EnrollmentResult) (t : Tables) → Post S (λ a. S) r t → Pairwise p t.peers
      either (ok a) t h = h
      either (err e) t h = h
