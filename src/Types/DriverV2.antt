-- ===== src/Types/DriverV2.antt =====
-- types/driver_v2.go: the profile of an ONU and the types of bulk provisioning. The metadata, and the
-- code of an error, which the V-SOL adapter neither reads nor sets, are left out.
use nano_southbound.Prelude.{Bool, ℕ, List, Option, ℤ}
use nano_southbound.Go.Text.{Text}

-- The bandwidths are in kbps.
pub record OnuProfile : Type 0 where
  pub line_profile : Text
  pub service_profile : Text
  pub bandwidth_up : ℤ
  pub bandwidth_down : ℤ
  pub vlan : ℤ
  pub priority : ℤ

pub record BulkProvisionOp : Type 0 where
  pub serial : Text
  pub pon_port : Text
  pub onu_id : ℤ
  pub profile : Option OnuProfile

pub record BulkOpResult : Type 0 where
  pub serial : Text
  pub success : Bool
  pub error : Text
  pub onu_id : ℤ
  pub pon_port : Text

-- The counts are at most the number of operations.
pub record BulkResult : Type 0 where
  pub succeeded : ℕ
  pub failed : ℕ
  pub results : List BulkOpResult
