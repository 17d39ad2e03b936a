-- ===== src/Agent/Wire.antt =====
-- agent/internal/api/schema.go: the tools, the error codes and the envelope of every result. The
-- wording of a message is not modelled.
pub mod Fields
pub mod Computer
pub mod Browse
pub mod Files
use hadron_desktop.Base.{ℕ, Bool, Option, none}
use hadron_desktop.Base.Text.{Text}

-- The tools' names; a caller may send any other.
pub data Tool : Type 0 where
  computer_use bash read_file search_files write_file patch browser : Tool
  other_tool : Text → Tool

-- `ErrorCode`; the empty code is `served`.
pub data ErrorCode : Type 0 where
  served invalid_argument unauthenticated forbidden session_unavailable : ErrorCode
  browser_unavailable not_found already_exists resource_exhausted : ErrorCode
  deadline_exceeded output_truncated paused internal : ErrorCode

pub record Identity : Type 0 where
  pub user : Text
  pub uid : ℕ
  pub pid : ℕ

pub record ResultMeta : Type 0 where
  pub code : ErrorCode
  pub retryable : Bool
  pub identity : Option Identity

-- `errorMeta`
abbrev pub error_meta : ErrorCode → Bool → ResultMeta
error_meta code retryable = record { code = code; retryable = retryable; identity = none }
