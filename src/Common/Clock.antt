-- ===== src/Common/Clock.antt =====
-- Python datetimes: an instant in microseconds, and whether the value carries a time zone (always
-- UTC here). Comparing a naive value with an aware one raises TypeError.
use Prim.Native.Nat.{ℕ, ◌+◌, ◌*◌}
use mathlib.Core.Bool.{Bool, true, false}
use vivarium_connection.Common.Tests.{ltb, leb, if◌then◌else◌, Result, ok, raised, type_error}

pub record Stamp : Type 0 where
  pub at : ℕ
  pub aware : Bool

abbrev same_zone : Bool → Bool → Bool
same_zone true true = true
same_zone false false = true
same_zone _ _ = false

-- a > b
unfoldable pub gt : Stamp → Stamp → Result Bool
gt a b = if same_zone a.aware b.aware then ok (ltb b.at a.at) else raised type_error

-- a >= b
unfoldable pub ge : Stamp → Stamp → Result Bool
ge a b = if same_zone a.aware b.aware then ok (leb b.at a.at) else raised type_error

-- datetime.now(timezone.utc) at an instant
abbrev pub utc : ℕ → Stamp
utc t = record { at = t; aware = true }

abbrev pub seconds : ℕ → ℕ
seconds s = s * 1000000

-- now + timedelta(seconds=s)
abbrev pub plus_seconds : Stamp → ℕ → Stamp
plus_seconds t s = record t { at = t.at + seconds s }
