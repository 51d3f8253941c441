-- ===== src/Assessment/Report.antt =====
-- backend/assessments.py: what `assess` returns.
use vardr_map.Base.{ℕ, Bool, Option, List}
use vardr_map.Text.{Text}
use vardr_map.Assessment.Case.{Item}
use vardr_map.Assessment.Preflight.{Session}

pub data Status : Type 0 where
  conclusive partial inconclusive : Status

-- How many identities are in each state.
pub record Counts : Type 0 where
  pub evaluated : ℕ
  pub inconclusive : ℕ
  pub missing : ℕ
  pub skipped : ℕ

pub record Assessment : Type 0 where
  pub status : Status
  pub counts : Counts
  pub unexpected : ℕ
  pub baseline_valid : Bool
  pub candidate_findings : ℕ
  pub identities : List Item
  pub reasons : List Text
  pub case_hash : Option Text
  pub case_snapshot_verified : Bool
  pub preflight : Session
