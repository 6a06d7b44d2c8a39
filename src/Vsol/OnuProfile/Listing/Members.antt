-- ===== src/Vsol/OnuProfile/Listing/Members.antt =====
-- vendors/vsol/onu_profile.go: the id of an ONU profile while its lines are read.
use nano_southbound.Prelude.{◌≡◌, Bool, true, false, Option, none, some, if◌then◌else◌, ℤ}
use nano_southbound.Go.Text.{Text, text_eq, codes, trim_space}
use nano_southbound.Go.Result.{Result, ok, err, ◌>>=◌}
use nano_southbound.Types.OnuProfile.{OnuHardwareProfile}
use nano_southbound.Vsol.Session.{Error}
use nano_southbound.Vsol.ProfileText.{capture_id, capture_rest, capture_value, on_match}
use nano_southbound.Vsol.OnuProfile.Listing.{
  parse_profile_int, read_switches, read_ports, read_member,
}

module _ (i : Option ℤ) where
  -- The result is an error, or a profile with the id `i`.
  abbrev pub HasId : Result Error OnuHardwareProfile → Type 0
  HasId (ok p) = p.id ≡ i
  HasId (err e) = Unit

  HasId-on_match :
      (o : Option Text) (f : Text → Result Error OnuHardwareProfile)
      (m : Result Error OnuHardwareProfile)
      → ((t : Text) → HasId (f t))
      → HasId m
      → HasId (on_match o f m)
  HasId-on_match none f m h k = k
  HasId-on_match (some t) f m h k = h t

  HasId-then :
      (r : Result Error ℤ) (f : ℤ → Result Error OnuHardwareProfile)
      → ((v : ℤ) → HasId (f v))
      → HasId (do v ← r; f v)
  HasId-then (ok v) f h = h v
  HasId-then (err e) f h = tt

  HasId-on_count :
      (label field line : Text) (f : ℤ → Result Error OnuHardwareProfile)
      (otherwise : Result Error OnuHardwareProfile)
      → ((v : ℤ) → HasId (f v))
      → HasId otherwise
      → HasId
          (on_match (capture_id label line) (λ m. do v ← parse_profile_int field m; f v) otherwise)
  HasId-on_count label field line f otherwise h k =
      HasId-on_match (capture_id label line) _ otherwise
        (λ m. HasId-then (parse_profile_int field m) f h) k

  HasId-if :
      (b : Bool) (p q : OnuHardwareProfile) → p.id ≡ i → q.id ≡ i → HasId (ok (if b then p else q))
  HasId-if true p q h k = h
  HasId-if false p q h k = k

  read_switches-HasId :
      (p : OnuHardwareProfile) (line : Text) → p.id ≡ i → HasId (read_switches p line)
  unfolding read_switches
  read_switches-HasId p line h =
      HasId-on_match (capture_id (codes "Service ability N:1:") line) _ _
        (λ m.
          HasId-if (text_eq (trim_space m) (codes "1"))
            (record p { service_ability = some (codes "n:1") }) p h h)
        (HasId-on_match (capture_value (codes "Ex-OMCI:") line) _ _ (λ v. h)
          (HasId-on_match (capture_value (codes "Wifi mgmt via non OMCI:") line) _ _ (λ v. h)
            (HasId-on_match (capture_value (codes "Omci send mode:") line) _ _ (λ v. h)
              (HasId-on_match (capture_value (codes "Default multicast range:") line) _ _ (λ v. h)
                (HasId-on_match (capture_value (codes "commit:") line) _ (ok p) (λ v. h) h)))))

  read_ports-HasId : (p : OnuHardwareProfile) (line : Text) → p.id ≡ i → HasId (read_ports p line)
  unfolding read_ports
  read_ports-HasId p line h =
      HasId-on_count (codes "Max eth:") (codes "max eth") line _ _ (λ v. h)
        (HasId-on_count (codes "Max pots:") (codes "max pots") line _ _ (λ v. h)
          (HasId-on_count (codes "Max iphost:") (codes "max iphost") line _ _ (λ v. h)
            (HasId-on_count (codes "Max ipv6host:") (codes "max ipv6host") line _ _ (λ v. h)
              (HasId-on_count (codes "Max veip:") (codes "max veip") line _ _ (λ v. h)
                (read_switches-HasId p line h)))))

  pub read_member-HasId :
      (p : OnuHardwareProfile) (line : Text) → p.id ≡ i → HasId (read_member p line)
  unfolding read_member
  read_member-HasId p line h =
      HasId-on_match (capture_rest (codes "Name:") line) _ _ (λ m. h)
        (HasId-on_match (capture_rest (codes "Description:") line) _ _ (λ m. h)
          (HasId-on_count (codes "Max tcont:") (codes "max tcont") line _ _ (λ v. h)
            (HasId-on_count (codes "Max gemport:") (codes "max gemport") line _ _ (λ v. h)
              (HasId-on_count (codes "Max switch per slot:") (codes "max switch") line _ _ (λ v. h)
                (read_ports-HasId p line h)))))
