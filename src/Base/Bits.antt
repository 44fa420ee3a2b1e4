-- ===== src/Base/Bits.antt =====
-- Masks on one byte as arithmetic, each checked over all its values.
use Prim.Native.Nat.{bit_and, bit_or}
use Prim.Native.Nat.{ℕ, zero, suc, ◌+◌, ◌%◌, ◌<◌}
use mathlib.Core.Path.{◌≡◌, refl}
use mathlib.Core.Bool.{Bool, true, ◌&&◌}
use native.Mathlib.Omega.{arith}
use pebble_voting_app.Base.Tests.{◌==◌}

-- Does the test hold for each number under a bound?
unfoldable pub holds_under : (test : ℕ → Bool) → (bound : ℕ) → Bool
holds_under test zero = true
holds_under test (suc k) = holds_under test k && test k

pub holds_under_at : (test : ℕ → Bool) (k v : ℕ) → v < k → holds_under test k ≡ true → test v ≡ true
unfolding holds_under
holds_under_at test zero v small all = absurd (omega arith)
holds_under_at test (suc k) v small all = ground (arith, holds_under_at test k v)

low_seven_table : holds_under (λ b. bit_and b 127 == b % 128) 256 ≡ true
unfolding holds_under
low_seven_table = refl

pub low_seven : (b : ℕ) → b < 256 → bit_and b 127 ≡ b % 128
low_seven b h = ground (arith, holds_under_at _ 256 b h low_seven_table)

set_top_table : holds_under (λ b. bit_or b 128 == b + 128) 128 ≡ true
unfolding holds_under
set_top_table = refl

pub set_top : (b : ℕ) → b < 128 → bit_or b 128 ≡ b + 128
set_top b h = ground (arith, holds_under_at _ 128 b h set_top_table)
