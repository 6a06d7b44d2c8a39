-- ===== src/Model/Subscriber.antt =====
-- model/onu_binding.go and model/subscriber.go. A pointer into the list of bindings is the binding
-- that it points to.
pub mod Bindings
use nano_southbound.Prelude.{
  Bool, true, false, ◌&&◌, not, Option, none, some, List, [], ◌∷◌, ◌++◌, ℤ, pos, if◌then◌else◌,
  is_empty,
}
use nano_southbound.Go.Text.{Text, codes, text_eq}
use nano_southbound.Go.Map.{Map}

abbrev pub role_primary : Text
role_primary = codes "primary"

abbrev pub role_secondary : Text
role_secondary = codes "secondary"

abbrev pub role_redundant : Text
role_redundant = codes "redundant"

pub record OnuBinding : Type 0 where
  pub serial : Text
  pub pon_port : Text
  pub onu_id : ℤ
  pub role : Text
  pub status : Text
  pub metadata : Map Text

pub record SubscriberSpec : Type 0 where
  pub onu_serial : Text
  pub mac_address : Text
  pub vlan : ℤ
  pub svlan : Option ℤ
  pub ip_address : Text
  pub ipv6_address : Text
  pub tier : Text
  pub username : Text
  pub password : Text
  pub enabled : Option Bool
  pub delegated_prefix : Text
  pub circuit_id : Text
  pub remote_id : Text
  pub description : Text
  pub onu_bindings : List OnuBinding

pub record Subscriber : Type 0 where
  pub name : Text
  pub annotations : Map Text
  pub spec : SubscriberSpec

pub is_enabled : Subscriber → Bool
is_enabled s = elim s.spec.enabled [ none ↦ true | some b ↦ b ]

-- The binding made from the legacy field `ONUSerial`.
unfoldable pub legacy_binding : Text → OnuBinding
legacy_binding onu = record {
  serial = onu;
  pon_port = [];
  onu_id = pos 0;
  role = role_primary;
  status = [];
  metadata = [];
}

first_with : (OnuBinding → Bool) → List OnuBinding → Option OnuBinding
first_with p [] = none
first_with p (b ∷ bs) = if p b then some b else first_with p bs

-- The binding that a loop found, or the one made from the legacy serial if the test passes.
abbrev or_legacy : Option OnuBinding → Bool → Text → Option OnuBinding
or_legacy (some b) usable onu = some b
or_legacy none usable onu = if usable then some (legacy_binding onu) else none

unfoldable pub get_primary_onu : Subscriber → Option OnuBinding
unfolding first_with legacy_binding
get_primary_onu s =
    or_legacy (first_with (λ b. text_eq b.role role_primary) s.spec.onu_bindings)
      (not (is_empty s.spec.onu_serial)) s.spec.onu_serial

unfoldable pub get_onu_by_serial : Subscriber → Text → Option OnuBinding
unfolding first_with legacy_binding
get_onu_by_serial s serial =
    or_legacy (first_with (λ b. text_eq b.serial serial) s.spec.onu_bindings)
      (is_empty s.spec.onu_bindings && text_eq s.spec.onu_serial serial) s.spec.onu_serial

abbrev pub with_bindings : Subscriber → List OnuBinding → Subscriber
with_bindings s bs = record s { spec = record (s.spec) { onu_bindings = bs } }

unfoldable pub add_onu : Subscriber → OnuBinding → Subscriber
add_onu s b = with_bindings s (s.spec.onu_bindings ++ b ∷ [])

abbrev put_back : OnuBinding → Option (List OnuBinding) → Option (List OnuBinding)
put_back b none = none
put_back b (some bs) = some (b ∷ bs)

-- The list without the first binding of that serial, or `none` if there is none.
remove_first : Text → List OnuBinding → Option (List OnuBinding)
remove_first serial [] = none
remove_first serial (b ∷ bs) =
    let rest = put_back b (remove_first serial bs) in
    if text_eq b.serial serial then some bs else rest

unfoldable pub remove_onu : Subscriber → Text → Subscriber × Bool
unfolding remove_first
remove_onu s serial = elim (remove_first serial s.spec.onu_bindings) [
  | none ↦ (s, false)
  | some bs ↦ (with_bindings s bs, true)
]
