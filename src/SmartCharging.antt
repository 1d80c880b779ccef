-- ===== src/SmartCharging.antt =====
-- apps/api/src/smart-charging/smart-charging.service.ts, method by method, over the sessions of the
-- session manager, the cache of the sites' limits and the queues. Power is in whole kW; a
-- limit that is sent to a charger is kept as the expression that the source evaluates in floating
-- point, and not evaluated. Priorities are in units of
-- a tenth of a minute, 600000 to the point.
pub mod Shares
pub mod Load
pub mod Queue
pub mod Waiting
mod Examples
use chargev.Prelude.{
  ℕ, ◌+◌, ◌-◌, ◌*◌, ◌/◌, String, same_text, Bool, true, false, not, ◌&&◌, Option, none, some, List,
  [], ◌∷◌, ◌++◌, ◌==◌, ltb, leb, is_some, get_or, length, map, or_string, if◌then◌else◌,
}
use chargev.Prelude.Int.{ℤ, sub_ℕ}
use chargev.Effects.{error, Action, pure, gets, or_raise, modify, ◌>>=◌, ◌>>◌}
use chargev.Table.{find_first, find_many, delete, order_by}
use chargev.Sessions.{
  SessionId, at_time, same_id, Session, get_active_sessions, get_station_active_sessions,
}
use chargev.Sessions as Sessions
use text.Mathlib.Text.{starts_with}

pub data UserType : Type 0 where
  fleet public : UserType

abbrev pub same_type : UserType → UserType → Bool
same_type fleet fleet = true
same_type public public = true
same_type a b = false

pub record Allocation : Type 0 where
  pub charger_id : ℕ
  pub allocated_power : ℕ
  pub is_charging : Bool

pub record PowerLimit : Type 0 where
  pub site_id : ℕ
  pub max_power : ℕ
  pub current_load : ℕ
  pub available_power : ℤ
  pub chargers : List Allocation

pub record Priority : Type 0 where
  pub session_id : SessionId
  pub user_id : String
  pub user_type : UserType
  pub priority : ℕ
  pub requested_power : ℕ
  pub charger_id : ℕ
  pub timestamp : ℕ

pub record Site : Type 0 where
  pub id : ℕ
  pub charge_points : List ℕ

pub record CachedLimit : Type 0 where
  pub limit : PowerLimit
  pub expires_at : ℕ

-- An entry of the queue of a charger.
pub record Queued : Type 0 where
  pub charger : ℕ
  pub entry : Priority

-- `power * tenths / 10 / among` kW: a share of the power, in tenths, for one of so many sessions.
pub record Share : Type 0 where
  pub power : ℕ
  pub tenths : ℕ
  pub among : ℕ

-- `ocpp.command.request`
pub data Command : Type 0 where
  set_charging_profile : ℕ → SessionId → Share → Command
  remote_start : ℕ → String → Command

pub record State : Type 0 where
  pub sites : List Site
  pub sessions : Sessions.State
  pub limits : List CachedLimit
  pub online : List ℕ
  pub queues : List Queued
  pub commands : List Command

abbrev pub includes : ℕ → List ℕ → Bool
includes k xs = is_some (find_first (λ x. x == k) xs)

abbrev pub is_point : Option ℕ → ℕ → Bool
is_point none k = false
is_point (some p) k = p == k

abbrev pub caches : ℕ → ℕ → CachedLimit → Bool
caches now site c = c.limit.site_id == site && ltb now c.expires_at

abbrev pub set_limit : ℕ → ℕ → PowerLimit → State → State
set_limit now ttl limit s = record s {
  limits =
      (record { limit = limit; expires_at = now + ttl })
      ∷ delete (λ (c : CachedLimit). c.limit.site_id == limit.site_id) s.limits;
}

abbrev pub type_of : Option String → UserType
type_of none = public
type_of (some u) = if starts_with u "fleet" then fleet else public

-- 100 or 50, and up to ten points for the minutes that a session has been on, a tenth for each.
abbrev pub base : UserType → ℕ
base fleet = 60000000
base public = 30000000

abbrev pub boost : ℕ → ℕ
boost age = if ltb age 6000000 then age else 6000000

abbrev pub prioritized : ℕ → Session → Priority
prioritized now x = record {
  session_id = x.id;
  user_id = or_string x.user_id "anonymous";
  user_type = type_of x.user_id;
  priority = base (type_of x.user_id) + boost (now - x.started_at);
  requested_power = 7;
  charger_id = x.station_id;
  timestamp = x.started_at;
}

abbrev pub highest_first : Priority → Priority → Bool
highest_first a b = leb b.priority a.priority

unfoldable pub prioritize_sessions : ℕ → List Session → List Priority
prioritize_sessions now xs = order_by highest_first (map (prioritized now) xs)

abbrev pub of_type : UserType → List Priority → List Priority
of_type t = find_many (λ (p : Priority). same_type p.user_type t)

abbrev pub give : Share → List Priority → List (Priority × Share)
give share = map (λ p. (p, share))

abbrev pub share_of : ℕ → ℕ → List Priority → Share
share_of power tenths ps = record { power = power; tenths = tenths; among = length ps }

abbrev pub split : ℕ → List Priority → List Priority → List Priority → List (Priority × Share)
split power (f ∷ fs) (p ∷ ps) all =
    give (share_of power 7 (f ∷ fs)) (f ∷ fs) ++ give (share_of power 3 (p ∷ ps)) (p ∷ ps)
split power [] ps all = give (share_of power 10 all) all
split power (f ∷ fs) [] all = give (share_of power 10 all) all

-- 70 % to the fleets and 30 % to the public where both are there, and equal shares of each.
unfoldable pub allocate : ℕ → List Priority → List (Priority × Share)
allocate power ps = split power (of_type fleet ps) (of_type public ps) ps

-- `point` is the property `chargePointId` of a session object.
module _ (point : Session → Option ℕ) where
  abbrev pub at_site : ℕ → List ℕ → Session → Bool
  at_site site chargers x =
      x.station_id == site && is_some (find_first (is_point (point x)) chargers)

  abbrev pub charging_at : List Session → ℕ → Bool
  charging_at xs charger = is_some (find_first (λ x. is_point (point x) charger) xs)

  abbrev pub allocation_of : List Session → ℕ → Allocation
  allocation_of xs charger = record {
    charger_id = charger;
    allocated_power = if charging_at xs charger then 7 else 0;
    is_charging = charging_at xs charger;
  }

  abbrev pub limit_of : Site → List Session → PowerLimit
  limit_of site active =
      let here = find_many (at_site site.id site.charge_points) active in
      record {
        site_id = site.id;
        max_power = length site.charge_points * 50;
        current_load = length here * 7;
        available_power = sub_ℕ (length site.charge_points * 50) (length here * 7);
        chargers = map (allocation_of here) site.charge_points;
      }

  -- From the cache, or made and cached for a minute.
  unfoldable pub get_site_power_limit : ℕ → ℕ → Action State PowerLimit
  get_site_power_limit now site s = elim (find_first (caches now site) s.limits) [
    | some c ↦ pure c.limit s
    | none ↦
        (do
          site ← or_raise (find_first (λ (x : Site). x.id == site) s.sites) (error "Site not found")
          let limit = limit_of site (get_active_sessions now s.sessions)
          modify (set_limit now 60000 limit)
          pure limit)
          s
  ]

  abbrev pub chargers_of : PowerLimit → List ℕ
  chargers_of limit = map (λ (a : Allocation). a.charger_id) limit.chargers

  -- The ids of the sessions differ, so that the map of the source has an entry for each. The
  -- profile goes to the station of the session.
  abbrev pub send_profiles : List (Priority × Share) → State → State
  send_profiles [] s = s
  send_profiles ((p, share) ∷ ps) s =
      send_profiles ps
        (record s { commands = set_charging_profile p.charger_id p.session_id share ∷ s.commands })

  unfoldable pub rebalance_load_for_site : ℕ → ℕ → Action State (Unit {0})
  rebalance_load_for_site now site = do
    limit ← get_site_power_limit now site
    active ← gets λ (s : State). get_active_sessions now s.sessions
    let here = find_many (at_site site (chargers_of limit)) active
    modify λ (s : State).
        if leb limit.current_load limit.max_power
        then s
        else send_profiles (allocate limit.max_power (prioritize_sessions now here)) s

  unfoldable pub update_site_power_limit : ℕ → ℕ → ℕ → Action State (Unit {0})
  update_site_power_limit now site power = do
    current ← get_site_power_limit now site
    modify (
        set_limit now 3600000 (record current {
          max_power = power;
          available_power = sub_ℕ power current.current_load;
        }))
    rebalance_load_for_site now site
