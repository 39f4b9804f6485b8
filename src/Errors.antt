-- ===== src/Errors.antt =====
-- src/error.rs: the errors of the API, their HTTP and gRPC statuses and their codes. The texts that
-- `Display` makes of them are left out; a message is
-- a text, the text of a registry's failure, or the list of the GPUs.
pub mod Statuses
pub mod Tests
use tei_manager.Base.{ℕ, String, List, Bool, ◌&&◌, leb, ltb}
use tei_manager.Registry.{RegistryError}
use tei_manager.Instance.{AnyError}

pub data Message : Type 0 where
  text : String → Message
  of_registry : RegistryError → Message
  available_gpus : List ℕ → Message

pub data TeiError : Type 0 where
  instance_not_found : String → TeiError
  model_not_found : String → TeiError
  model_download_failed : String → Message → TeiError
  model_load_failed : String → Message → TeiError
  model_busy : String → String → TeiError
  instance_exists : String → TeiError
  port_conflict : ℕ → String → TeiError
  max_instances_reached : ℕ → TeiError
  invalid_instance_state : String → String → String → TeiError
  invalid_config : Message → TeiError
  invalid_port : ℕ → Message → TeiError
  invalid_gpu_id : ℕ → Message → TeiError
  invalid_instance_name : String → Message → TeiError
  port_allocation_failed : Message → TeiError
  unauthenticated : Message → TeiError
  forbidden : Message → TeiError
  validation_error : Message → TeiError
  missing_field : String → TeiError
  backend_unavailable : Message → TeiError
  timeout : Message → TeiError
  internal : Message → TeiError
  io_error : Message → TeiError

-- `axum::http::StatusCode`, by its number.
pub status_code : TeiError → ℕ
status_code (TeiError.instance_not_found _) = 404
status_code (TeiError.model_not_found _) = 404
status_code (TeiError.instance_exists _) = 409
status_code (TeiError.port_conflict _ _) = 409
status_code (TeiError.model_busy _ _) = 409
status_code (TeiError.invalid_config _) = 400
status_code (TeiError.invalid_port _ _) = 400
status_code (TeiError.invalid_gpu_id _ _) = 400
status_code (TeiError.invalid_instance_name _ _) = 400
status_code (TeiError.validation_error _) = 400
status_code (TeiError.missing_field _) = 400
status_code (TeiError.invalid_instance_state _ _ _) = 400
status_code (TeiError.unauthenticated _) = 401
status_code (TeiError.forbidden _) = 403
status_code (TeiError.max_instances_reached _) = 422
status_code (TeiError.port_allocation_failed _) = 422
status_code (TeiError.backend_unavailable _) = 503
status_code (TeiError.timeout _) = 504
status_code (TeiError.internal _) = 500
status_code (TeiError.io_error _) = 500
status_code (TeiError.model_download_failed _ _) = 500
status_code (TeiError.model_load_failed _ _) = 500

pub error_code : TeiError → String
error_code (TeiError.instance_not_found _) = "INSTANCE_NOT_FOUND"
error_code (TeiError.model_not_found _) = "MODEL_NOT_FOUND"
error_code (TeiError.model_download_failed _ _) = "MODEL_DOWNLOAD_FAILED"
error_code (TeiError.model_load_failed _ _) = "MODEL_LOAD_FAILED"
error_code (TeiError.model_busy _ _) = "MODEL_BUSY"
error_code (TeiError.instance_exists _) = "INSTANCE_EXISTS"
error_code (TeiError.port_conflict _ _) = "PORT_CONFLICT"
error_code (TeiError.max_instances_reached _) = "MAX_INSTANCES_REACHED"
error_code (TeiError.invalid_instance_state _ _ _) = "INVALID_INSTANCE_STATE"
error_code (TeiError.invalid_config _) = "INVALID_CONFIG"
error_code (TeiError.invalid_port _ _) = "INVALID_PORT"
error_code (TeiError.invalid_gpu_id _ _) = "INVALID_GPU_ID"
error_code (TeiError.invalid_instance_name _ _) = "INVALID_INSTANCE_NAME"
error_code (TeiError.port_allocation_failed _) = "PORT_ALLOCATION_FAILED"
error_code (TeiError.unauthenticated _) = "UNAUTHENTICATED"
error_code (TeiError.forbidden _) = "FORBIDDEN"
error_code (TeiError.validation_error _) = "VALIDATION_ERROR"
error_code (TeiError.missing_field _) = "MISSING_FIELD"
error_code (TeiError.backend_unavailable _) = "BACKEND_UNAVAILABLE"
error_code (TeiError.timeout _) = "TIMEOUT"
error_code (TeiError.internal _) = "INTERNAL_ERROR"
error_code (TeiError.io_error _) = "IO_ERROR"

-- `StatusCode::is_client_error` and `is_server_error`: 400 to 499, and 500 to 599.
pub is_client_error : TeiError → Bool
is_client_error e = leb 400 (status_code e) && ltb (status_code e) 500

pub is_server_error : TeiError → Bool
is_server_error e = leb 500 (status_code e) && ltb (status_code e) 600

-- The codes of `tonic::Status` that an error is turned into.
pub data GrpcCode : Type 0 where
  not_found already_exists internal invalid_argument unauthenticated permission_denied : GrpcCode
  resource_exhausted unavailable deadline_exceeded : GrpcCode

-- `From<TeiError> for tonic::Status`.
pub grpc_code : TeiError → GrpcCode
grpc_code (TeiError.instance_not_found _) = GrpcCode.not_found
grpc_code (TeiError.model_not_found _) = GrpcCode.not_found
grpc_code (TeiError.instance_exists _) = GrpcCode.already_exists
grpc_code (TeiError.port_conflict _ _) = GrpcCode.already_exists
grpc_code (TeiError.model_busy _ _) = GrpcCode.already_exists
grpc_code (TeiError.model_download_failed _ _) = GrpcCode.internal
grpc_code (TeiError.model_load_failed _ _) = GrpcCode.internal
grpc_code (TeiError.invalid_config _) = GrpcCode.invalid_argument
grpc_code (TeiError.invalid_port _ _) = GrpcCode.invalid_argument
grpc_code (TeiError.invalid_gpu_id _ _) = GrpcCode.invalid_argument
grpc_code (TeiError.invalid_instance_name _ _) = GrpcCode.invalid_argument
grpc_code (TeiError.validation_error _) = GrpcCode.invalid_argument
grpc_code (TeiError.missing_field _) = GrpcCode.invalid_argument
grpc_code (TeiError.invalid_instance_state _ _ _) = GrpcCode.invalid_argument
grpc_code (TeiError.unauthenticated _) = GrpcCode.unauthenticated
grpc_code (TeiError.forbidden _) = GrpcCode.permission_denied
grpc_code (TeiError.max_instances_reached _) = GrpcCode.resource_exhausted
grpc_code (TeiError.port_allocation_failed _) = GrpcCode.resource_exhausted
grpc_code (TeiError.backend_unavailable _) = GrpcCode.unavailable
grpc_code (TeiError.timeout _) = GrpcCode.deadline_exceeded
grpc_code (TeiError.internal _) = GrpcCode.internal
grpc_code (TeiError.io_error _) = GrpcCode.internal

-- `From<anyhow::Error>` and `From<std::io::Error>`.
unfoldable pub from_any : AnyError → TeiError
from_any e = TeiError.internal (Message.text e)

pub from_io : String → TeiError
from_io e = TeiError.io_error (Message.text e)

-- The body of an error response, less its time and its text, under the status.
pub record ErrorResponse : Type 0 where
  pub status : ℕ
  pub code : String

pub into_response : TeiError → ErrorResponse
into_response e = record { status = status_code e; code = error_code e }
