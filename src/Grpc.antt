-- ===== src/Grpc.antt =====
-- The codes of `tonic::Status`. The message of a status is left out.
pub data Code : Type 0 where
  cancelled : Code
  unknown : Code
  invalid_argument : Code
  deadline_exceeded : Code
  not_found : Code
  already_exists : Code
  permission_denied : Code
  resource_exhausted : Code
  failed_precondition : Code
  aborted : Code
  out_of_range : Code
  unimplemented : Code
  internal : Code
  unavailable : Code
  data_loss : Code
  unauthenticated : Code
