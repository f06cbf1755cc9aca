-- ===== src/Daemon/Handler.antt =====
-- Handlers: what they change stays changed where they return an error. An error is that of error.rs
-- without its message.
use aursmith.Base.{String, Result}
use aursmith.Daemon.State.{AppState}
pub use aursmith.Base.Run.{
  continue, ◌>>=◌, ◌>>◌, pure, raise, lift, reads, reads_result, modify, check, bind-keeps,
  check-keeps, bind-ok, check-ok,
}

pub data Status : Type 0 where
  bad_request unauthorized forbidden not_found conflict internal_server_error : Status

pub record ApiError : Type 0 where
  pub status : Status
  pub code : String

abbrev pub ApiResult : Type 0 → Type 0
ApiResult A = Result A ApiError

abbrev pub Handler : Type 0 → Type 0
Handler A = AppState → ApiResult A × AppState

abbrev pub bad_request_error : String → ApiError
bad_request_error code = record { status = bad_request; code = code }

abbrev pub unauthorized_error : ApiError
unauthorized_error = record { status = unauthorized; code = "UNAUTHORIZED" }

abbrev pub conflict_error : String → ApiError
conflict_error code = record { status = conflict; code = code }

abbrev pub not_found_error : ApiError
not_found_error = record { status = not_found; code = "NOT_FOUND" }

abbrev pub internal_error : ApiError
internal_error = record { status = internal_server_error; code = "INTERNAL_ERROR" }
