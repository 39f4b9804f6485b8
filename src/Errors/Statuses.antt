-- ===== src/Errors/Statuses.antt =====
-- The HTTP statuses of src/error.rs beside its gRPC statuses and its codes.
use tei_manager.Base.{
  ℕ, ◌≡◌, refl, sym, ap, ◌∙◌, String, not, List, [], ◌∷◌, arith, str_eq, if◌then◌else◌,
}
use tei_manager.Errors.{
  TeiError, GrpcCode, status_code, error_code, grpc_code, is_client_error, is_server_error,
}

-- The HTTP status that stands for a gRPC code.
abbrev pub http_of : GrpcCode → ℕ
http_of GrpcCode.invalid_argument = 400
http_of GrpcCode.unauthenticated = 401
http_of GrpcCode.permission_denied = 403
http_of GrpcCode.not_found = 404
http_of GrpcCode.already_exists = 409
http_of GrpcCode.resource_exhausted = 422
http_of GrpcCode.internal = 500
http_of GrpcCode.unavailable = 503
http_of GrpcCode.deadline_exceeded = 504

-- Over HTTP and over gRPC an error has corresponding statuses, and it is to blame on the client or
-- on the server, never on both.
pub statuses_agree :
    (e : TeiError)
    → (http_of (grpc_code e) ≡ status_code e) × (is_server_error e ≡ not (is_client_error e))
unfolding grpc_code status_code is_server_error is_client_error
statuses_agree e = ground arith

-- The status that a client may infer from a code.
abbrev codes : List (String × ℕ)
codes =
    ("INSTANCE_NOT_FOUND", 404)
    ∷ ("MODEL_NOT_FOUND", 404)
    ∷ ("MODEL_DOWNLOAD_FAILED", 500)
    ∷ ("MODEL_LOAD_FAILED", 500)
    ∷ ("MODEL_BUSY", 409)
    ∷ ("INSTANCE_EXISTS", 409)
    ∷ ("PORT_CONFLICT", 409)
    ∷ ("MAX_INSTANCES_REACHED", 422)
    ∷ ("INVALID_INSTANCE_STATE", 400)
    ∷ ("INVALID_CONFIG", 400)
    ∷ ("INVALID_PORT", 400)
    ∷ ("INVALID_GPU_ID", 400)
    ∷ ("INVALID_INSTANCE_NAME", 400)
    ∷ ("PORT_ALLOCATION_FAILED", 422)
    ∷ ("UNAUTHENTICATED", 401)
    ∷ ("FORBIDDEN", 403)
    ∷ ("VALIDATION_ERROR", 400)
    ∷ ("MISSING_FIELD", 400)
    ∷ ("BACKEND_UNAVAILABLE", 503)
    ∷ ("TIMEOUT", 504)
    ∷ ("INTERNAL_ERROR", 500)
    ∷ ("IO_ERROR", 500)
    ∷ []

abbrev status_of : String → List (String × ℕ) → ℕ
status_of code [] = 0
status_of code (c ∷ cs) = if str_eq c.0 code then c.1 else status_of code cs

tells_status : (e : TeiError) → status_of (error_code e) codes ≡ status_code e
unfolding error_code status_code
tells_status (TeiError.instance_not_found _) = refl
tells_status (TeiError.model_not_found _) = refl
tells_status (TeiError.model_download_failed _ _) = refl
tells_status (TeiError.model_load_failed _ _) = refl
tells_status (TeiError.model_busy _ _) = refl
tells_status (TeiError.instance_exists _) = refl
tells_status (TeiError.port_conflict _ _) = refl
tells_status (TeiError.max_instances_reached _) = refl
tells_status (TeiError.invalid_instance_state _ _ _) = refl
tells_status (TeiError.invalid_config _) = refl
tells_status (TeiError.invalid_port _ _) = refl
tells_status (TeiError.invalid_gpu_id _ _) = refl
tells_status (TeiError.invalid_instance_name _ _) = refl
tells_status (TeiError.port_allocation_failed _) = refl
tells_status (TeiError.unauthenticated _) = refl
tells_status (TeiError.forbidden _) = refl
tells_status (TeiError.validation_error _) = refl
tells_status (TeiError.missing_field _) = refl
tells_status (TeiError.backend_unavailable _) = refl
tells_status (TeiError.timeout _) = refl
tells_status (TeiError.internal _) = refl
tells_status (TeiError.io_error _) = refl

-- Errors with the same code have the same HTTP status, whatever they carry.
pub code-status : (e e' : TeiError) → error_code e ≡ error_code e' → status_code e ≡ status_code e'
code-status e e' h = sym (tells_status e) ∙ ap (λ c. status_of c codes) h ∙ tells_status e'
