-- ===== src/Base/Results.antt =====
-- `Result<T, commonware_codec::Error>`: the three errors that this repository raises or passes on.
use Prim.Native.String.{String}

pub data CodecError : Type 0 where
  end_of_buffer : CodecError
  invalid : String → String → CodecError
  other : String → CodecError

pub data Result {ℓ κ} (E : Type κ) (A : Type ℓ) : Type (ℓ ⊔ κ) where
  ok : A → Result E A
  err : E → Result E A
