-- ===== src/Base/Durations.antt =====
-- std::chrono::milliseconds and seconds of include/scylladb/alternator/config.h: a signed 64-bit count
-- in two's complement, as the number below 2 ^ 64 that has its bits.
use Prim.Native.Nat.{ℕ, ◌*◌, ◌%◌, ◌^◌}
use mathlib.Core.Bool.{Bool, ◌&&◌}
use alternator_client_cpp.Base.Tests.{ltb, leb}

abbrev pub is_positive : ℕ → Bool
is_positive d = ltb 0 d && ltb d (2 ^ 63)

abbrev pub is_negative : ℕ → Bool
is_negative d = leb (2 ^ 63) d

-- `d *= 2`
unfoldable pub doubled : ℕ → ℕ
doubled d = d * 2 % 2 ^ 64
