-- ===== src/Tests/Model.antt =====
-- The theorems about the package `model` at concrete inputs.
use nano_southbound.Prelude.{◌≡◌, refl, none, some, List, [], ◌∷◌, pos, arith}
use nano_southbound.Go.Text.{Text, codes}
use nano_southbound.Model.Subscriber.{
  OnuBinding, Subscriber, role_primary, role_secondary, legacy_binding, get_primary_onu,
  get_onu_by_serial, add_onu, remove_onu,
}
use nano_southbound.Model.Subscriber.Bindings.{
  Removed, remove_onu-Removed, legacy_hidden, PrimaryOf, get_primary_onu-PrimaryOf,
}
use nano_southbound.Model.ServiceTier.{ServiceTier}

abbrev binding : Text → Text → OnuBinding
binding serial role = record {
  serial = serial;
  pon_port = codes "0/1";
  onu_id = pos 3;
  role = role;
  status = [];
  metadata = [];
}

abbrev pub subscriber : List OnuBinding → Subscriber
subscriber bs = record {
  name = codes "s";
  annotations = [];
  spec = record {
    onu_serial = codes "VSOL1";
    mac_address = [];
    vlan = pos 100;
    svlan = none;
    ip_address = [];
    ipv6_address = [];
    tier = codes "gold";
    username = [];
    password = [];
    enabled = none;
    delegated_prefix = [];
    circuit_id = [];
    remote_id = [];
    description = [];
    onu_bindings = bs;
  };
}

abbrev two : List OnuBinding
two = binding (codes "A") role_secondary ∷ binding (codes "B") role_primary ∷ []

remove_onu-Removed_example :
    Removed (subscriber two) (codes "B") (remove_onu (subscriber two) (codes "B"))
remove_onu-Removed_example = remove_onu-Removed (subscriber two) (codes "B")

legacy_hidden_example :
    (get_onu_by_serial (subscriber []) (codes "VSOL1") ≡ some (legacy_binding (codes "VSOL1")))
    × (get_onu_by_serial
          (add_onu (subscriber []) (binding (codes "C") role_secondary))
          (codes "VSOL1")
        ≡ none)
    × (get_primary_onu (add_onu (subscriber []) (binding (codes "C") role_secondary))
        ≡ some (legacy_binding (codes "VSOL1")))
legacy_hidden_example =
    legacy_hidden (subscriber []) (binding (codes "C") role_secondary) refl (λ e. cc)
      (λ e. ground arith) (λ e. ground arith)

get_primary_onu-PrimaryOf_example : PrimaryOf (subscriber two) (get_primary_onu (subscriber two))
get_primary_onu-PrimaryOf_example = get_primary_onu-PrimaryOf (subscriber two)

abbrev tier : ServiceTier
tier = record {
  name = codes "gold";
  annotations = [];
  spec = record {
    bandwidth_up = pos 100;
    bandwidth_down = pos 500;
    qos_class = [];
    burst_up = some (pos 8);
    burst_down = some (pos 16);
    priority = none;
    description = [];
    ipv6_enabled = none;
    static_ip_pool = [];
  };
}
