-- ===== src/Types/OnuProfile/Validity.antt =====
-- types/onu_profile.go: the valid ONU hardware profiles, and what `Validate` makes of them.
use nano_southbound.Prelude.{
  ◌≤◌, ◌≡◌, ◌≢◌, ◌↔◌, refl, Bool, true, false, not, ◌&&◌, Option, none, some, [], arith, length,
  is_some, ℤ, pos,
}
use nano_southbound.Go.Text.{Text}
use nano_southbound.Go.Result.{
  ok, reject_if, Present, Decides, Decides-then, Decides-reject_empty, Decides-if_present, ◌>>◌,
}
use nano_southbound.Types.Check.{
  Error, InBoundsPtr, validate_range_ptr, validate_range_ptr-Decides, description_too_long,
}
use nano_southbound.Types.OnuProfile.{
  OnuProfilePorts, OnuHardwareProfile, is_long, validate_ports, validate,
}

abbrev pub IsPortCount : Option ℤ → Type 0
IsPortCount = InBoundsPtr (pos 1) (pos 255)

abbrev pub AreValidPorts : OnuProfilePorts → Type 0
AreValidPorts p =
    IsPortCount p.eth
    × (IsPortCount p.pots × (IsPortCount p.iphost × (IsPortCount p.ipv6host × IsPortCount p.veip)))

-- At most 64 bytes
abbrev pub IsShort : Option Text → Type 0
IsShort none = Unit
IsShort (some d) = length d ≤ 64

abbrev pub IsValidOnuProfile : OnuHardwareProfile → Type 0
IsValidOnuProfile p =
    (p.name ≢ [])
    × (IsShort p.description
        × (Present AreValidPorts p.ports
            × (IsPortCount p.tcont_num
                × (IsPortCount p.gemport_num
                    × (IsPortCount p.switch_num × (is_some p.tcont_num ≡ is_some p.gemport_num))))))

count-Decides :
    (field : Text) (v : Option ℤ)
    → Decides (validate_range_ptr field v (pos 1) (pos 255)) (IsPortCount v)
count-Decides field v = validate_range_ptr-Decides field v (pos 1) (pos 255)

ports-Decides : (p : OnuProfilePorts) → Decides (validate_ports p) (AreValidPorts p)
unfolding validate_ports
ports-Decides p = Decides-then _ _ (count-Decides _ p.eth) (
    Decides-then _ _ (count-Decides _ p.pots) (
      Decides-then _ _ (count-Decides _ p.iphost)
        (Decides-then _ _ (count-Decides _ p.ipv6host) (count-Decides _ p.veip))))

IsShort-Decides :
    (d : Option Text) → Decides (reject_if (is_long d) description_too_long) (IsShort d)
IsShort-Decides none = (λ h. tt, λ h. refl)
IsShort-Decides (some d) = (λ h. ground arith, λ h. ground arith)

paired-Decides :
    (t g : Bool) (e f : Error)
    → Decides (reject_if (t && not g) e >> reject_if (g && not t) f) (t ≡ g)
paired-Decides true true e f = (λ h. refl, λ h. refl)
paired-Decides true false e f = (λ h. cc, λ h. cc)
paired-Decides false true e f = (λ h. cc, λ h. cc)
paired-Decides false false e f = (λ h. refl, λ h. refl)

-- A profile passes validation exactly if it has a name, a description of at most 64 bytes, counts
-- between 1 and 255 wherever a count is given, and both or none of the T-CONT and GEM port counts.
pub validate-IsValidOnuProfile :
    (p : OnuHardwareProfile) → (validate (some p) ≡ ok tt) ↔ IsValidOnuProfile p
unfolding validate
validate-IsValidOnuProfile p = Decides-then _ _ (Decides-reject_empty p.name _) (
    Decides-then _ _ (IsShort-Decides p.description) (
      Decides-then _ _ (Decides-if_present validate_ports p.ports ports-Decides) (
        Decides-then _ _ (count-Decides _ p.tcont_num) (
          Decides-then _ _ (count-Decides _ p.gemport_num) (
            Decides-then _ _ (count-Decides _ p.switch_num)
              (paired-Decides (is_some p.tcont_num) (is_some p.gemport_num) _ _))))))
