-- ===== src/Core/ApiError.antt =====
-- crates/reinhardt-cloud-core/src/error.rs. A message that the program formats is represented by
-- its format string, without the values put into it.
use reinhardt_cloud.Base.{ℕ, String}

pub data ApiError : Type 0 where
  unauthorized forbidden not_found bad_request internal : String → ApiError

-- `ApiError::status_code`, the HTTP status
unfoldable pub status_code : ApiError → ℕ
status_code (unauthorized _) = 401
status_code (forbidden _) = 403
status_code (not_found _) = 404
status_code (bad_request _) = 400
status_code (internal _) = 500
