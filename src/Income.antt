-- ===== src/Income.antt =====
-- The tables that apps/api/src/settlements reads earnings from: charging and swap sessions,
-- subscriptions, roaming records, payments, and the shifts and ratings of drivers. Amounts are
-- whole cents, energies whole units; a missing amount or energy counts as zero in the sums.
use chargev.Prelude.{
  ℕ, String, Bool, true, false, ◌&&◌, Option, none, some, List, ◌==◌, leb, get_or, same_option,
}
use chargev.Table.{find_first}
use chargev.Subscriptions.{SubscriptionStatus}

pub data SessionStatus : Type 0 where
  pending active paused completed failed cancelled : SessionStatus

pub record Organization : Type 0 where
  pub id : ℕ
  pub name : String

pub record Station : Type 0 where
  pub id : ℕ
  pub org_id : ℕ
  pub name : String

pub record Vehicle : Type 0 where
  pub id : ℕ
  pub org_id : Option ℕ

pub record Session : Type 0 where
  pub id : ℕ
  pub station_id : ℕ
  pub vehicle_id : Option ℕ
  pub user_id : Option ℕ
  pub status : SessionStatus
  pub started_at : ℕ
  pub ended_at : Option ℕ
  pub kwh : Option ℕ
  pub amount : Option ℕ

-- `is_completed`, `is_succeeded` and `status` keep of a column what is read of it.
pub record SwapSession : Type 0 where
  pub id : ℕ
  pub station_id : ℕ
  pub is_completed : Bool
  pub completed_at : Option ℕ

pub record Plan : Type 0 where
  pub id : ℕ
  pub org_id : ℕ
  pub name : String
  pub price : ℕ

pub record Subscription : Type 0 where
  pub id : ℕ
  pub plan_id : ℕ
  pub status : SubscriptionStatus
  pub period_start : ℕ
  pub period_end : ℕ

pub data CdrStatus : Type 0 where
  sent acknowledged refused : CdrStatus

pub record Cdr : Type 0 where
  pub id : ℕ
  pub partner_id : ℕ
  pub start : ℕ
  pub finish : ℕ
  pub energy_kwh : ℕ
  pub total_cost : ℕ
  pub status : CdrStatus

pub record Partner : Type 0 where
  pub id : ℕ
  pub org_id : ℕ
  pub name : String

pub record Shift : Type 0 where
  pub driver_id : ℕ
  pub is_completed : Bool
  pub check_out_at : Option ℕ

pub record Rating : Type 0 where
  pub driver_id : ℕ
  pub score : ℕ
  pub created_at : ℕ

pub record Payment : Type 0 where
  pub id : ℕ
  pub user_id : ℕ
  pub session_id : Option ℕ
  pub amount : ℕ
  pub is_succeeded : Bool
  pub created_at : ℕ

pub record Books : Type 0 where
  pub organizations : List Organization
  pub stations : List Station
  pub vehicles : List Vehicle
  pub sessions : List Session
  pub swap_stations : List Station
  pub swap_sessions : List SwapSession
  pub plans : List Plan
  pub subscriptions : List Subscription
  pub partners : List Partner
  pub cdrs : List Cdr
  pub drivers : List ℕ
  pub shifts : List Shift
  pub ratings : List Rating
  pub payments : List Payment

abbrev pub is_completed : SessionStatus → Bool
is_completed completed = true
is_completed pending = false
is_completed active = false
is_completed paused = false
is_completed failed = false
is_completed cancelled = false

-- `{ gte: start, lte: end }`, which a null does not meet.
abbrev pub within : ℕ → ℕ → Option ℕ → Bool
within start end none = false
within start end (some t) = leb start t && leb t end

-- `station: { orgId }` and `vehicle: { orgId }`
abbrev pub station_of_org : ℕ → List Station → ℕ → Bool
station_of_org org stations k = elim (find_first (λ (s : Station). s.id == k) stations) [
  | none ↦ false
  | some s ↦ s.org_id == org
]

abbrev pub vehicle_of_org : ℕ → List Vehicle → Option ℕ → Bool
vehicle_of_org org vehicles none = false
vehicle_of_org org vehicles (some k) = elim (find_first (λ (v : Vehicle). v.id == k) vehicles) [
  | none ↦ false
  | some v ↦ same_option v.org_id (some org)
]

abbrev pub partner_of_org : ℕ → List Partner → ℕ → Bool
partner_of_org org partners k = elim (find_first (λ (p : Partner). p.id == k) partners) [
  | none ↦ false
  | some p ↦ p.org_id == org
]

abbrev pub amount_of : Session → ℕ
amount_of s = get_or s.amount 0

abbrev pub kwh_of : Session → ℕ
kwh_of s = get_or s.kwh 0

abbrev pub ended_within : ℕ → ℕ → Session → Bool
ended_within start end s = is_completed s.status && within start end s.ended_at
