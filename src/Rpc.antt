-- ===== src/Rpc.antt =====
-- What a call answers with when it fails: Connect's errors, and any other exception, which Connect
-- reports as an internal error.
use llm_hub.Base.{String}

pub data Code : Type 0 where
  unauthenticated invalid_argument not_found : Code

pub data RpcError : Type 0 where
  connect_error : Code → String → RpcError
  fault : RpcError
