-- ===== src/Base/Result.antt =====
-- Results of fallible code. An error is the exception that the source throws: the HTTP exceptions of
-- Nest with their message (values that a message interpolates are left out), and `fault` for any
-- other thrown error, as the database driver's.
use Prim.Native.String.{String}

pub data Error : Type 0 where
  bad_request not_found conflict unprocessable : String → Error
  unauthorized forbidden too_many_requests internal fault : String → Error

pub data Result {ℓ} (A : Type ℓ) : Type ℓ where
  ok : A → Result A
  err : Error → Result A
