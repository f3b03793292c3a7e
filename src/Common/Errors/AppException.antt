-- ===== src/Common/Errors/AppException.antt =====
-- The static constructors of common/errors/app.exception.ts.
use backend_task_management.Base.{String}
use backend_task_management.Common.Errors.{Thrown, app_exception}

abbrev pub bad_request : String → Thrown
bad_request = app_exception "BAD_REQUEST" 400

abbrev pub validation : String → Thrown
validation = app_exception "VALIDATION_ERROR" 400

abbrev pub unauthorized : String → Thrown
unauthorized = app_exception "UNAUTHORIZED" 401

abbrev pub forbidden : String → Thrown
forbidden = app_exception "FORBIDDEN" 403

abbrev pub not_found : String → Thrown
not_found = app_exception "NOT_FOUND" 404

abbrev pub conflict : String → Thrown
conflict = app_exception "CONFLICT" 409

abbrev pub internal : String → Thrown
internal = app_exception "INTERNAL_ERROR" 500
