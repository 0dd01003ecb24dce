-- ===== src/Status.antt =====
-- The status of an operation (include/status.h and src/status.cpp).
use Prim.Native.String.{String}
use kvcache.Base.{Bool, true, false}

pub data Code : Type 0 where
  ok_code not_found_code corruption_code object_too_large_code : Code
  buffer_too_small_code shutdown_code : Code

pub record Status : Type 0 where
  pub code : Code
  pub msg : String

abbrev pub ok_status : Status
ok_status = record { code = ok_code; msg = "" }

abbrev pub not_found_status : String → Status
not_found_status msg = record { code = not_found_code; msg = msg }

abbrev pub corruption_status : String → Status
corruption_status msg = record { code = corruption_code; msg = msg }

abbrev pub object_too_large_status : String → Status
object_too_large_status msg = record { code = object_too_large_code; msg = msg }

abbrev pub buffer_too_small_status : String → Status
buffer_too_small_status msg = record { code = buffer_too_small_code; msg = msg }

abbrev pub shutdown_status : String → Status
shutdown_status msg = record { code = shutdown_code; msg = msg }

unfoldable pub is_ok : Status → Bool
is_ok s = elim s.code [ ok_code ↦ true | _ ↦ false ]

unfoldable pub is_not_found : Status → Bool
is_not_found s = elim s.code [ not_found_code ↦ true | _ ↦ false ]

unfoldable pub is_object_too_large : Status → Bool
is_object_too_large s = elim s.code [ object_too_large_code ↦ true | _ ↦ false ]

unfoldable pub is_shutdown : Status → Bool
is_shutdown s = elim s.code [ shutdown_code ↦ true | _ ↦ false ]

unfoldable pub is_buffer_too_small : Status → Bool
is_buffer_too_small s = elim s.code [ buffer_too_small_code ↦ true | _ ↦ false ]
