-- ===== src/Domain/Errors.antt =====
-- crates/erabi-domain/src/error.rs: the error codes, and the error that the policies build.
use erabi.Base.{String, Bool, false, List, []}

pub data ErrorCode : Type 0 where
  schema_drift ambiguous_page_type unresolved_reference storage_critical : ErrorCode
  crawler_unavailable validation_error conflict not_found access_denied : ErrorCode
  crawler_timeout invalid_canonicalization_policy invalid_url : ErrorCode
  unsupported_url_scheme invalid_domain_scope invalid_domain_scope_rule : ErrorCode
  registrable_domain_unavailable invalid_discovery_transition : ErrorCode
  invalid_crawl_guardrails invalid_page_type_budget invalid_transition_budget : ErrorCode
  budget_overflow : ErrorCode

pub record SuggestedAction : Type 0 where
  pub label : String
  pub action : String

-- `details` is a JSON value that `with_code` sets to null; the model leaves the field out.
pub record ProductError : Type 0 where
  pub code : ErrorCode
  pub safe_message : String
  pub recoverable : Bool
  pub suggested_actions : List SuggestedAction
  pub trace_id : String

abbrev pub with_code : ErrorCode → String → ProductError
with_code code message = record {
  code = code;
  safe_message = message;
  recoverable = false;
  suggested_actions = [];
  trace_id = "";
}
