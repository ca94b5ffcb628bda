-- ===== src/Approvals/Store.antt =====
-- The table `approvals`.
use self_healing_agent.Prelude.{
  ◌&&◌, ◌++◌, ◌∷◌, [], Bool, if◌then◌else◌, leb, List, none, Option, some, String, ℕ, ◌==◌,
}

-- The reason is the stripped text, as code points.
pub record Approval : Type 0 where
  pub id : ℕ
  pub plan_id : ℕ
  pub plan_version : ℕ
  pub approver_id : ℕ
  pub decision : String
  pub rejection_reason : Option (List ℕ)
  pub created_at : ℕ
  pub expires_at : ℕ

-- `order_by(created_at.desc())` and the first row; of rows at one time the first as they stand.
unfoldable pub latest {ℓ} : {A : Type ℓ} → (A → ℕ) → List A → Option A
latest created_at [] = none
latest created_at (x ∷ xs) = elim (latest created_at xs) [
  | none ↦ some x
  | some y ↦ if leb (created_at y) (created_at x) then some x else some y
]

-- `where(Approval.plan_id == …, Approval.plan_version == …)`
unfoldable pub is_of_plan : ℕ → ℕ → Approval → Bool
is_of_plan plan_id plan_version a = a.plan_id == plan_id && a.plan_version == plan_version

-- `record_approval`, with its fresh UUID; the caller gives `created_at`.
unfoldable pub record_approval :
    ℕ → ℕ → ℕ → ℕ → String → Option (List ℕ) → ℕ → ℕ → List Approval → List Approval × Approval
record_approval fresh plan_id plan_version approver_id decision reason expires_at created_at rows =
    let approval : Approval = record {
      id = fresh;
      plan_id = plan_id;
      plan_version = plan_version;
      approver_id = approver_id;
      decision = decision;
      rejection_reason = reason;
      created_at = created_at;
      expires_at = expires_at;
    } in
    (rows ++ approval ∷ [], approval)
