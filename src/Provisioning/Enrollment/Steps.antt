-- ===== src/Provisioning/Enrollment/Steps.antt =====
-- The queries of an enrollment, and what each of them does to the token and to the node.
use edgefabric.Prelude.{
  ℕ, ◌≡◌, refl, sym, ◌∙◌, String, true, false, not, Option, none, some, List, [], ◌∷◌, ◌==◌, ltb,
  is_some, arith, Bool-cases, Option-cases, inl, inr, ==_iff, ap,
}
use edgefabric.Exec.{conflict, call, require}
use edgefabric.Exec.Hoare.{
  Post, Hoare, Keeps, Hoare-pure, Hoare-call, Hoare-bind, Hoare-require, Keeps-lift, Keeps-bind,
}
use edgefabric.Domain.{Uuid}
use edgefabric.Domain.Node.{Node}
use edgefabric.Provisioning.Overlay.{Peer}
use edgefabric.Provisioning.Enrollment.{draw_keys, Drawn, validate_token}
use edgefabric.Provisioning.PeerStore.{
  Token, Tables, find_token, find_peer, set_used, has_unused, mark_used, get_token, create_peer,
  update_node, replace_node, insert_peer, affected, find_node,
}

-- The text is that of the token `k`, which is not used.
abbrev pub Live : String → Token → Tables → Type 0
Live text k t = (find_token text t.tokens ≡ some k) × (k.used_at ≡ none)

-- The text is that of a token that is used.
abbrev pub Spent : String → Tables → Type 0
Spent text t = (k : Token) × (find_token text t.tokens ≡ some k) × (is_some k.used_at ≡ true)

find_token-set_used :
    (text : String) (k : Token) (now : ℕ) (l : List Token)
    → find_token text l ≡ some k
    → k.used_at ≡ none
    → find_token text (set_used k.id now l) ≡ some (record k { used_at = some now })
unfolding find_token set_used
find_token-set_used text k now [] h u = cc
find_token-set_used text k now (row ∷ l) h u = ground (arith, find_token-set_used text k now l)

pub mark_used-Spent :
    (text : String) (k : Token) (now : ℕ) (t : Tables)
    → Live text k t
    → Post (λ u. Unit) (λ a. Spent text) (mark_used k.id now t).0 (mark_used k.id now t).1
unfolding mark_used
mark_used-Spent text k now t (h, u) = elim (Bool-cases (has_unused k.id t.tokens)) [
  | inl one ↦
      rw one (record k { used_at = some now }, find_token-set_used text k now t.tokens h u, refl)
  | inr none_left ↦ rw none_left tt
]

pub find_node-id : (id : Uuid) (n : Node) (l : List Node) → find_node id l ≡ some n → n.id ≡ id
unfolding find_node
find_node-id id n [] h = cc
find_node-id id n (row ∷ l) h = ground (arith, find_node-id id n l)

-- The row that has the new values and its old identifier.
abbrev with_id : Node → Uuid → Node
with_id n id = record n { id = id }

find_node-replace_node :
    (n old : Node) (l : List Node)
    → find_node n.id l ≡ some old
    → find_node n.id (replace_node n l) ≡ some n
unfolding find_node replace_node
find_node-replace_node n old [] h = cc
find_node-replace_node n old (row ∷ l) h = elim (Bool-cases (row.id == n.id)) [
  | inl same ↦
      let e : row.id ≡ n.id = (==_iff row.id n.id).0 same in
      rw (same, same) (ap (λ x. some (with_id n x)) e)
  | inr apart ↦
      let later : find_node n.id l ≡ some old = ground arith in
      rw (apart, apart) (find_node-replace_node n old l later)
]

pub create_peer-tokens :
    (q : Peer) (P : List Token → Type 0) (Q : Type 0) (t : Tables)
    → P t.tokens × Q
    → Post (λ u. P u.tokens) (λ a u. P u.tokens × Q) (create_peer q t).0 (create_peer q t).1
unfolding create_peer insert_peer
create_peer-tokens q P Q t h = elim (Option-cases (find_peer q.id t.peers)) [
  | inl new ↦ rw new h
  | inr (old, e) ↦ rw e h.0
]

pub update_node-Online :
    (text : String) (n : Node) (t : Tables)
    → Spent text t
    → Post
        (λ u. Unit)
        (λ a u. Spent text u × (find_node n.id u.nodes ≡ some n))
        (update_node n t).0
        (update_node n t).1
unfolding update_node affected
update_node-Online text n t h = elim (Option-cases (find_node n.id t.nodes)) [
  | inl new ↦ rw new tt
  | inr (old, e) ↦ rw e (h, find_node-replace_node n old t.nodes e)
]

-- The token that allows an enrollment at the time `now`.
pub record Valid (now : ℕ) (text : String) (t : Tables) (k : Token) : Type 0 where
  pub stored : find_token text t.tokens ≡ some k
  pub unused : k.used_at ≡ none
  pub unexpired : ltb k.expires_at now ≡ false

-- Nothing has been written yet, and the token is in the table; it is unused, too.
abbrev pub LookedUp : String → Tables → Token → Tables → Type 0
LookedUp text old k t = (t ≡ old) × (find_token text old.tokens ≡ some k)

abbrev pub FoundUnused : String → Tables → Token → Unit {0} → Tables → Type 0
FoundUnused text old k u t = (t ≡ old) × (find_token text old.tokens ≡ some k) × (k.used_at ≡ none)

abbrev pub Validated : ℕ → String → Tables → Token → Tables → Type 0
Validated now text old k t = (t ≡ old) × Valid now text old k

look_up :
    (text : String) (old t : Tables)
    → t ≡ old
    → Post (λ u. Unit) (LookedUp text old) (get_token text t).0 (get_token text t).1
unfolding get_token
look_up text old t e = elim (Option-cases (find_token text t.tokens)) [
  | inl none_there ↦ rw none_there tt
  | inr (k, one) ↦ rw one (e, ap (λ x. find_token text x.tokens) (sym e) ∙ one)
]

unused_of : (o : Option ℕ) → not (is_some o) ≡ true → o ≡ none
unused_of none b = refl
unused_of (some x) b = cc

pub validate_token-Valid :
    (now : ℕ) (text : String) (old : Tables)
    → Hoare (λ t. t ≡ old) (λ t. Unit) (Validated now text old) (validate_token now text)
unfolding validate_token
validate_token-Valid now text old =
    Hoare-bind (λ t. t ≡ old) (λ t. Unit) (LookedUp text old) (Validated now text old)
      (call (get_token text)) _
      (Hoare-call (λ t. t ≡ old) (λ t. Unit) (LookedUp text old) (get_token text) (λ t e. tt)
        (look_up text old))
      (λ k.
        Hoare-bind (LookedUp text old k) (λ t. Unit) (FoundUnused text old k)
          (Validated now text old) (require (not (is_some k.used_at)) conflict) _
          (Hoare-require (LookedUp text old k) (λ t. Unit) (FoundUnused text old k)
            (not (is_some k.used_at)) conflict (λ t e. tt)
            (λ b t h. (h.0, h.1, unused_of k.used_at b)))
          (λ u.
            Hoare-bind (FoundUnused text old k u) (λ t. Unit) (λ v. Validated now text old k)
              (Validated now text old) (require (not (ltb k.expires_at now)) conflict) _
              (Hoare-require (FoundUnused text old k u) (λ t. Unit) (λ v. Validated now text old k)
                (not (ltb k.expires_at now)) conflict (λ t e. tt)
                (λ b t h. (h.0, record { stored = h.1; unused = h.2; unexpired = ground arith })))
              (λ v.
                Hoare-pure (Validated now text old k) (λ t. Unit) (Validated now text old) k
                  (λ t h. h))))

pub draw_keys-Keeps : (P : Tables → Type 0) (d : Drawn) → Keeps P (draw_keys d)
unfolding draw_keys
draw_keys-Keeps P d = Keeps-bind P _ _ (Keeps-lift P d.key_pair) (λ pair.
    Keeps-bind P _ _ (Keeps-lift P d.preshared_key) (λ psk.
      Keeps-bind P _ _ (Keeps-lift P (d.encrypt pair.0))
        (λ private. Keeps-bind P _ _ (Keeps-lift P (d.encrypt psk)) (λ secret. (λ db h. h)))))
