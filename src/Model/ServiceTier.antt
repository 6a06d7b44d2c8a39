-- ===== src/Model/ServiceTier.antt =====
-- model/servicetier.go.
use nano_southbound.Prelude.{
  ℕ, suc, ◌-◌, ◌*◌, ◌%◌, ◌^◌, ◌<◌, ◌≡◌, Bool, true, Option, none, some, arith, ltb, if◌then◌else◌,
  ℤ, pos, negsuc,
}
use nano_southbound.Go.Text.{Text}
use nano_southbound.Go.Map.{Map}

pub record ServiceTierSpec : Type 0 where
  pub bandwidth_up : ℤ
  pub bandwidth_down : ℤ
  pub qos_class : Text
  pub burst_up : Option ℤ
  pub burst_down : Option ℤ
  pub priority : Option ℤ
  pub description : Text
  pub ipv6_enabled : Option Bool
  pub static_ip_pool : Text

pub record ServiceTier : Type 0 where
  pub name : Text
  pub annotations : Map Text
  pub spec : ServiceTierSpec

pub get_priority : ServiceTier → ℤ
get_priority t = elim t.spec.priority [ none ↦ pos 3 | some p ↦ p ]

pub is_ipv6_enabled : ServiceTier → Bool
is_ipv6_enabled t = elim t.spec.ipv6_enabled [ none ↦ true | some b ↦ b ]

-- The bits of an `int`, and the `int` of 64 bits.
abbrev bits : ℤ → ℕ
bits (pos n) = n % 2 ^ 64
bits (negsuc n) = 2 ^ 64 - 1 - n % 2 ^ 64

abbrev of_bits : ℕ → ℤ
of_bits b = if ltb b (2 ^ 63) then pos b else negsuc (2 ^ 64 - 1 - b)

-- n * 1024 * 1024 as an `int`, which wraps around
mega : ℤ → ℤ
mega (pos n) = of_bits (bits (pos (n * 1048576)))
mega (negsuc n) = of_bits (bits (negsuc (suc n * 1048576 - 1)))

unfoldable pub burst_bytes : Option ℤ → ℤ
unfolding mega
burst_bytes none = pos 0
burst_bytes (some v) = mega v

unfoldable pub get_burst_up : ServiceTier → ℤ
unfolding burst_bytes
get_burst_up t = burst_bytes t.spec.burst_up

unfoldable pub get_burst_down : ServiceTier → ℤ
unfolding burst_bytes
get_burst_down t = burst_bytes t.spec.burst_down

-- A burst below 8 TiB is given in bytes with no wrap-around, in both directions.
pub burst_exact :
    (t : ServiceTier) (up down : ℕ)
    → t.spec.burst_up ≡ some (pos up)
    → t.spec.burst_down ≡ some (pos down)
    → up < 2 ^ 43
    → down < 2 ^ 43
    → (get_burst_up t ≡ pos (up * 1048576)) × (get_burst_down t ≡ pos (down * 1048576))
unfolding get_burst_up get_burst_down
burst_exact t up down e f h k = ground arith
