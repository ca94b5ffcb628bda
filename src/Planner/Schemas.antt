-- ===== src/Planner/Schemas.antt =====
-- sharedmodels/plan.py, and the canonical plan whose digest is its content hash.
use self_healing_agent.Prelude.{
  [], ◌∷◌, ℕ, Bool, false, not, List, Option, String, some, none, ◌==◌, if◌then◌else◌, str_eq,
}

-- A value of a `dict[str, Any]`: a text, an integer from 0 on, `None`, or any other by its truth.
pub data Value : Type 0 where
  text : String → Value
  number : ℕ → Value
  null : Value
  other : Bool → Value

abbrev pub Parameters : Type 0
Parameters = List (String × Value)

-- `params.get(key)`
unfoldable pub get : Parameters → String → Option Value
get [] key = none
get ((k, v) ∷ params) key = let rest = get params key in if str_eq k key then some v else rest

-- `bool(value)`
unfoldable pub is_truthy : Value → Bool
is_truthy (text s) = not (str_eq s "")
is_truthy (number n) = not (n == 0)
is_truthy null = false
is_truthy (other b) = b

pub data RiskLevel : Type 0 where
  low_risk medium_risk high_risk critical_risk : RiskLevel

pub record TargetBinding : Type 0 where
  pub resource_id : ℕ
  pub container_id : String
  pub service_name : String
  pub binding_generation : ℕ

pub record RemediationStep : Type 0 where
  pub id : ℕ
  pub plan_id : Option ℕ
  pub resource_id : ℕ
  pub position : ℕ
  pub action : String
  pub action_schema_version : String
  pub parameters : Parameters
  pub verification : Parameters

-- `actor` and `created_at` are left out.
pub record RemediationPlan : Type 0 where
  pub id : ℕ
  pub incident_id : ℕ
  pub diagnosis_id : ℕ
  pub version : ℕ
  pub risk : RiskLevel
  pub target_binding : TargetBinding
  pub steps : List RemediationStep
  pub verification_profile : Option String
  pub content_hash : String
  pub approved : Bool

-- A step as the canonical dictionary holds it.
pub record CanonicalStep : Type 0 where
  pub position : ℕ
  pub action : String
  pub resource_id : ℕ
  pub action_schema_version : String
  pub parameters : Parameters
  pub verification : Parameters

pub record CanonicalPlan : Type 0 where
  pub incident_id : ℕ
  pub diagnosis_id : ℕ
  pub version : ℕ
  pub risk : RiskLevel
  pub target_binding : TargetBinding
  pub steps : List CanonicalStep
  pub verification_profile : Option String

-- pydantic, uuid, json and hashlib, as far as the planner calls them: the UUID and the integer from 0 on
-- that a value is read as, where it is, the text of a UUID, and the digest of a canonical plan.
pub record Host : Type 0 where
  pub uuid_of : Value → Option ℕ
  pub int_of : Value → Option ℕ
  pub show_uuid : ℕ → String
  pub digest : CanonicalPlan → String
