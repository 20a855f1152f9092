-- ===== src/Health/Origins.antt =====
-- internal/cdnserver/healthcheck.go: the probes of the origins of CDN sites. The client is the
-- parameter `fetch`, which gives the status code of a response, if there is one.
use edgefabric.Prelude.{
  ℕ, ◌+◌, ◌≡◌, String, Bool, true, false, ◌&&◌, ltb, leb, str_eq, Option, none, some, List, [], ◌∷◌,
  arith, if◌then◌else◌,
}
use edgefabric.Health.{State, default_config, count_result}

pub record Origin : Type 0 where
  pub scheme : String
  pub address : String
  pub health_check_path : String

pub record OriginHealth : Type 0 where
  pub origin : Origin
  pub healthy : Bool
  pub consecutive_fail : ℕ
  pub consecutive_ok : ℕ

abbrev pub healthy_threshold : ℕ
healthy_threshold = 1

abbrev pub unhealthy_threshold : ℕ
unhealthy_threshold = 3

unfoldable pub new_health_checker : List Origin → List OriginHealth
new_health_checker [] = []
new_health_checker (o ∷ origins) =
    record { origin = o; healthy = true; consecutive_fail = 0; consecutive_ok = 0 }
    ∷ new_health_checker origins

unfoldable pub mark_origin : Bool → OriginHealth → OriginHealth
mark_origin true oh =
    let n = oh.consecutive_ok + 1 in
    record oh {
      consecutive_ok = n;
      consecutive_fail = 0;
      healthy = if leb healthy_threshold n then true else oh.healthy;
    }
mark_origin false oh =
    let n = oh.consecutive_fail + 1 in
    record oh {
      consecutive_fail = n;
      consecutive_ok = 0;
      healthy = if leb unhealthy_threshold n then false else oh.healthy;
    }

abbrev or_default : String → String → String
or_default s d = if str_eq s "" then d else s

-- 2xx and 3xx count as healthy.
abbrev pub is_success : Option ℕ → Bool
is_success none = false
is_success (some status) = leb 200 status && ltb status 400

module _ (fetch : String → String → String → Option ℕ) where
  unfoldable pub check_origin : OriginHealth → OriginHealth
  unfolding mark_origin
  check_origin oh =
      let path = or_default oh.origin.health_check_path "/" in
      let scheme = or_default oh.origin.scheme "https" in
      mark_origin (is_success (fetch scheme oh.origin.address path)) oh

  unfoldable pub check_origins : List OriginHealth → List OriginHealth
  unfolding check_origin
  check_origins [] = []
  check_origins (oh ∷ rest) = check_origin oh ∷ check_origins rest

unfoldable pub healthy_origins : List OriginHealth → List Origin
healthy_origins [] = []
healthy_origins (oh ∷ rest) =
    let later = healthy_origins rest in if oh.healthy then oh.origin ∷ later else later

-- The part of the state that both checkers have.
abbrev pub health_of_route : State → Bool × ℕ × ℕ
health_of_route s = (s.healthy, s.consecutive_fail, s.consecutive_ok)

abbrev pub health_of_origin : OriginHealth → Bool × ℕ × ℕ
health_of_origin oh = (oh.healthy, oh.consecutive_fail, oh.consecutive_ok)

-- The checker of origins judges as the checker of routes does with its default thresholds: from the
-- same counters and verdict, the same result leads to the same counters and verdict.
pub mark_origin-count_result :
    (success : Bool) (oh : OriginHealth) (s : State)
    → health_of_origin oh ≡ health_of_route s
    → health_of_origin (mark_origin success oh)
      ≡ health_of_route (count_result default_config success s)
unfolding mark_origin count_result
mark_origin-count_result true oh s e = ground arith
mark_origin-count_result false oh s e = ground arith
