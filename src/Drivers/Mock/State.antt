-- ===== src/Drivers/Mock/State.antt =====
-- drivers/mock/driver.go: the state of the simulated device, and what its methods compute.
use nano_southbound.Prelude.{
  ℕ, ◌+◌, ◌%◌, ◌^◌, Bool, not, Option, none, some, List, [], ◌∷◌, ◌++◌, if◌then◌else◌, is_empty,
  keep, ℤ, pos,
}
use nano_southbound.Go.Text.{Text, codes, text_eq}
use nano_southbound.Go.Number.{itoa}
use nano_southbound.Go.Map.{Map, lookup}
use nano_southbound.Model.Subscriber.{Subscriber}
use nano_southbound.Model.ServiceTier.{ServiceTier}

-- `T` is the type of times, `F` that of floating point numbers, `C` that of configurations.
pub record MockSubscriber (T : Type 0) : Type 0 where
  pub id : Text
  pub onu_serial : Text
  pub vlan : ℤ
  pub pon_port : Text
  pub onu_id : ℤ
  pub state : Text
  pub ip_address : Text
  pub ipv6_address : Text
  pub created_at : T

pub record MockOnu (F : Type 0) : Type 0 where
  pub pon_port : Text
  pub serial : Text
  pub mac : Text
  pub model : Text
  pub distance : ℤ
  pub rx_power : F

-- The fields of `types.SubscriberStats` that the driver sets; the counts have 64 bits.
pub record SubscriberStats (T : Type 0) : Type 0 where
  pub bytes_up : ℕ
  pub bytes_down : ℕ
  pub packets_up : ℕ
  pub packets_down : ℕ
  pub rate_up : ℕ
  pub rate_down : ℕ
  pub timestamp : T

pub record Driver (C T F : Type 0) : Type 0 where
  pub config : C
  pub connected : Bool
  pub subscribers : Map (MockSubscriber T)
  pub onus : List (MockOnu F)
  pub stats : Map (SubscriberStats T)
  pub cmd_history : List Text

-- What one call reads from outside: the error of its context, if that ends a wait, the readings of
-- the clock and of `rand.Intn` in their order, and times as seconds.
pub record World (T : Type 0) : Type 0 where
  pub done : Option Text
  pub now : ℕ → T
  pub intn : ℕ → ℕ → ℕ
  pub unix : T → ℤ
  pub seconds_since : T → ℤ

-- A value of a `map[string]interface{}` with metadata
pub data Metadata : Type 0 where
  text : Text → Metadata
  int : ℤ → Metadata

pub record SubscriberResult : Type 0 where
  pub subscriber_id : Text
  pub session_id : Text
  pub assigned_ip : Text
  pub assigned_ipv6 : Text
  pub interface_name : Text
  pub vlan : ℤ
  pub assigned_prefix : Text
  pub metadata : Map Metadata

-- `types.SubscriberStatus`, without the two powers of its metadata, which are random
pub record SubscriberStatus (T : Type 0) : Type 0 where
  pub subscriber_id : Text
  pub state : Text
  pub session_id : Text
  pub ipv4_address : Text
  pub ipv6_address : Text
  pub uptime_seconds : ℤ
  pub last_activity : T
  pub is_online : Bool
  pub metadata : Map Metadata

abbrev pub online : Text
online = codes "online"

abbrev pub suspended : Text
suspended = codes "suspended"

abbrev pub not_connected : Text
not_connected = codes "not connected to device"

abbrev pub not_found : Text → Text
not_found id = codes "subscriber " ++ (id ++ codes " not found")

unfoldable pub remove_from_autofind : {F : Type 0} → Text → List (MockOnu F) → List (MockOnu F)
remove_from_autofind serial onus = keep (λ onu. not (text_eq onu.serial serial)) onus

-- The address of the subscriber, or one that is made up
abbrev address_or : {T : Type 0} → World T → Text → Text
address_or w ip =
    if is_empty ip
    then codes "100.64." ++ (itoa (pos (w.intn 0 255)) ++ (codes "." ++ itoa (pos (w.intn 1 255))))
    else ip

abbrev or_else : Option Text → Text → Text
or_else none port = port
or_else (some own) port = own

abbrev pub pon_port_of : Subscriber → Text
pon_port_of s = or_else (lookup (codes "nanoncore.com/pon-port") s.annotations) (codes "0/1")

unfoldable pub new_subscriber : {T : Type 0} → World T → ℤ → Subscriber → MockSubscriber T
new_subscriber w onu_id s = record {
  id = s.name;
  onu_serial = s.spec.onu_serial;
  vlan = s.spec.vlan;
  pon_port = pon_port_of s;
  onu_id = onu_id;
  state = online;
  ip_address = address_or w s.spec.ip_address;
  ipv6_address = s.spec.ipv6_address;
  created_at = w.now 0;
}

unfoldable pub new_stats : {T : Type 0} → World T → SubscriberStats T
new_stats w = record {
  bytes_up = 0;
  bytes_down = 0;
  packets_up = 0;
  packets_down = 0;
  rate_up = 0;
  rate_down = 0;
  timestamp = w.now 1;
}

abbrev pub profile_command : ℤ → ServiceTier → Text
profile_command onu_id tier =
    codes "onu profile "
    ++ (itoa onu_id
        ++ (codes " line-profile "
            ++ (itoa tier.spec.bandwidth_down ++ codes "M service-profile internet")))

unfoldable pub create_commands : ℤ → Subscriber → ServiceTier → List Text
create_commands onu_id s tier =
    (codes "onu " ++ (itoa onu_id ++ (codes " type router sn " ++ s.spec.onu_serial)))
    ∷ profile_command onu_id tier
    ∷ (codes "onu vlan " ++ (itoa onu_id ++ (codes " user-vlan " ++ itoa s.spec.vlan)))
    ∷ []

unfoldable pub result_of :
    {T : Type 0} → World T → ℤ → Subscriber → MockSubscriber T → SubscriberResult
result_of w onu_id s sub = record {
  subscriber_id = s.name;
  session_id = codes "sess-" ++ (itoa (w.unix (w.now 2)) ++ (codes "-" ++ itoa onu_id));
  assigned_ip = sub.ip_address;
  assigned_ipv6 = sub.ipv6_address;
  interface_name = codes "gpon " ++ (pon_port_of s ++ (codes " onu " ++ itoa onu_id));
  vlan = s.spec.vlan;
  assigned_prefix = [];
  metadata =
      (codes "vendor", text (codes "mock"))
      ∷ (codes "model", text (codes "simulator"))
      ∷ (codes "pon_port", text (pon_port_of s))
      ∷ (codes "onu_id", int onu_id)
      ∷ [];
}

unfoldable pub status_of : {T : Type 0} → World T → Text → MockSubscriber T → SubscriberStatus T
status_of w id sub = record {
  subscriber_id = id;
  state = sub.state;
  session_id = codes "sess-" ++ id;
  ipv4_address = sub.ip_address;
  ipv6_address = sub.ipv6_address;
  uptime_seconds = w.seconds_since sub.created_at;
  last_activity = w.now 0;
  is_online = text_eq sub.state online;
  metadata = (codes "pon_port", text sub.pon_port) ∷ (codes "onu_id", int sub.onu_id) ∷ [];
}

-- The counts after one more reading
unfoldable pub grown : {T : Type 0} → World T → SubscriberStats T → SubscriberStats T
grown w s = record {
  bytes_up = (s.bytes_up + w.intn 0 1000000) % 2 ^ 64;
  bytes_down = (s.bytes_down + w.intn 1 10000000) % 2 ^ 64;
  packets_up = (s.packets_up + w.intn 2 10000) % 2 ^ 64;
  packets_down = (s.packets_down + w.intn 3 100000) % 2 ^ 64;
  rate_up = w.intn 4 100000000;
  rate_down = w.intn 5 500000000;
  timestamp = w.now 0;
}
