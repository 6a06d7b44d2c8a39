-- ===== src/Vsol/Provisioning.antt =====
-- vendors/vsol/adapter.go: `ApplyProfile` and `BulkProvision`.
pub mod Accounting
pub mod Epon
use nano_southbound.Prelude.{
  ℕ, suc, ◌/◌, Bool, true, false, ◌&&◌, ◌||◌, not, Option, none, some, List, [], ◌∷◌, ◌++◌,
  if◌then◌else◌, is_empty, ℤ, pos, negsuc, sub_ℕ, ltb_ℤ, exists,
}
use nano_southbound.Go.Text.{Text, codes, text_eq, to_lower, contains}
use nano_southbound.Go.Number.{itoa}
use nano_southbound.Go.Map.{Map, lookup}
use nano_southbound.Go.Result.{Result, ok, err, Check}
use nano_southbound.Common.Sanitize.{sanitize_cli_param}
use nano_southbound.Types.DriverV2.{OnuProfile, BulkProvisionOp, BulkOpResult, BulkResult}
use nano_southbound.Vsol.Session.{Error, failed, Executor, Run}
use nano_southbound.Vsol.Bandwidth.{
  BandwidthProfiles, ProfileCache, Caching, build_bandwidth_onu_commands, new_profile_cache,
  find_or_create_bandwidth_profiles, find_or_create_bandwidth_profiles_cached,
}

-- `types.CLIExecutor`: a command with its output or the message of the error, and a batch
pub record CommandLine (S : Type 0) : Type 0 where
  pub exec_command : Text → S → Result Text Text × S
  pub exec_commands : Executor S

abbrev pub commands_of : {S : Type 0} → Option (CommandLine S) → Option (Executor S)
commands_of none = none
commands_of (some cli) = some cli.exec_commands

-- The metadata is that of the configuration, whose map may be nil.
unfoldable pub detect_pon_type : Option (Map Text) → Text
detect_pon_type none = codes "gpon"
detect_pon_type (some metadata) = elim (lookup (codes "pon_type") metadata) [
  | none ↦ codes "gpon"
  | some pon_type ↦ pon_type
]

abbrev pub is_gpon : Option (Map Text) → Bool
is_gpon metadata = text_eq (detect_pon_type metadata) (codes "gpon")

-- Go's division by 1000, which drops the fraction
abbrev pub thousandth : ℤ → ℤ
thousandth (pos n) = pos (n / 1000)
thousandth (negsuc n) = sub_ℕ 0 (suc n / 1000)

abbrev pub line_profile_of : OnuProfile → Text
line_profile_of profile =
    if is_empty profile.line_profile
    then codes "line-"
      ++ (itoa (thousandth profile.bandwidth_down)
          ++ (codes "-" ++ itoa (thousandth profile.bandwidth_up)))
    else profile.line_profile

abbrev pub service_profile_of : OnuProfile → Text
service_profile_of profile =
    if is_empty profile.service_profile then codes "service-internet" else profile.service_profile

abbrev names_profile : OnuProfile → Bool
names_profile profile =
    not (is_empty profile.line_profile) || not (is_empty profile.service_profile)

abbrev pub has_bandwidth : OnuProfile → Bool
has_bandwidth profile = ltb_ℤ (pos 0) profile.bandwidth_up || ltb_ℤ (pos 0) profile.bandwidth_down

-- An error, which is logged, and no bandwidth give no commands.
abbrev pub bandwidth_commands : ℤ → Result Error (Option BandwidthProfiles) → List Text
bandwidth_commands onu_id (ok (some bw)) = build_bandwidth_onu_commands onu_id bw
bandwidth_commands onu_id (ok none) = []
bandwidth_commands onu_id (err e) = []

abbrev pub closing : List Text
closing = codes "exit" ∷ codes "commit" ∷ codes "end" ∷ []

unfoldable pub epon_profile_commands : Text → ℤ → OnuProfile → List Text
epon_profile_commands pon_port onu_id profile =
    codes "configure terminal"
    ∷ (codes "interface epon " ++ pon_port)
    ∷ ((if names_profile profile
          then (codes "llid profile "
              ++ (itoa onu_id
                  ++ (codes " line-profile "
                      ++ (sanitize_cli_param (line_profile_of profile)
                          ++ (codes " service-profile "
                              ++ sanitize_cli_param (service_profile_of profile))))))
            ∷ []
          else [])
        ++ ((if ltb_ℤ (pos 0) profile.vlan
              then (codes "llid vlan "
                  ++ (itoa onu_id ++ (codes " user-vlan " ++ itoa profile.vlan)))
                ∷ []
              else [])
            ++ ((if has_bandwidth profile
                  then (codes "llid flowctrl "
                      ++ (itoa onu_id
                          ++ (codes " ingress "
                              ++ (itoa profile.bandwidth_up
                                  ++ (codes " egress " ++ itoa profile.bandwidth_down)))))
                    ∷ []
                  else [])
                ++ closing)))

-- `bandwidth` are the commands for the bandwidth.
unfoldable pub gpon_profile_commands : Text → ℤ → OnuProfile → List Text → List Text
gpon_profile_commands pon_port onu_id profile bandwidth =
    codes "configure terminal"
    ∷ (codes "interface gpon " ++ pon_port)
    ∷ ((if names_profile profile
          then (codes "onu profile "
              ++ (itoa onu_id
                  ++ (codes " line-profile "
                      ++ (line_profile_of profile
                          ++ (codes " service-profile " ++ service_profile_of profile)))))
            ∷ []
          else [])
        ++ ((if ltb_ℤ (pos 0) profile.vlan
              then (codes "onu vlan "
                  ++ (itoa onu_id
                      ++ (codes " user-vlan "
                          ++ (itoa profile.vlan ++ (codes " priority " ++ itoa profile.priority)))))
                ∷ []
              else [])
            ++ (bandwidth ++ closing)))

-- The name of the ONU's profile in a bulk operation
abbrev pub bulk_profile_name : Option OnuProfile → Text
bulk_profile_name none = codes "AN5506-04-F1"
bulk_profile_name (some profile) =
    if is_empty profile.line_profile then codes "AN5506-04-F1" else profile.line_profile

abbrev pub vlan_commands : ℤ → Option OnuProfile → List Text
vlan_commands onu_id none = []
vlan_commands onu_id (some profile) =
    let onu = codes "onu " ++ itoa onu_id in
    let vlan = itoa profile.vlan in
    if ltb_ℤ (pos 0) profile.vlan
    then (onu ++ codes " tcont 1")
      ∷ (onu ++ codes " gemport 1 tcont 1")
      ∷ (onu ++ (codes " service INTERNET gemport 1 vlan " ++ (vlan ++ codes " cos 0-7")))
      ∷ (onu
          ++ (codes " service-port 1 gemport 1 uservlan "
              ++ (vlan ++ (codes " vlan " ++ (vlan ++ codes " new_cos 0")))))
      ∷ (onu ++ (codes " portvlan eth 1 mode tag vlan " ++ vlan))
      ∷ []
    else []

abbrev pub asks_bandwidth : BulkProvisionOp → Bool
asks_bandwidth op = elim op.profile [ none ↦ false | some profile ↦ has_bandwidth profile ]

abbrev pub is_error : Text → Bool
is_error out =
    contains (to_lower out) (codes "error")
    || contains (to_lower out) (codes "fail")
    || contains (to_lower out) (codes "invalid")

-- The first output that tells of an error
unfoldable pub first_error : List Text → Option Text
first_error [] = none
first_error (out ∷ outputs) =
    let later = first_error outputs in if is_error out then some out else later

abbrev pub op_result : BulkProvisionOp → Bool → Text → BulkOpResult
op_result op success error = record {
  serial = op.serial;
  success = success;
  error = error;
  onu_id = op.onu_id;
  pon_port = op.pon_port;
}

abbrev pub judged : BulkProvisionOp → Option Text → BulkOpResult
judged op none = op_result op true []
judged op (some out) = op_result op false out

unfoldable pub judge : BulkProvisionOp → Result Text (List Text) → BulkOpResult
unfolding first_error
judge op (err m) = op_result op false m
judge op (ok outputs) = judged op (first_error outputs)

-- The counter of the successes or of the failures goes up.
abbrev pub count : BulkOpResult → BulkResult → BulkResult
count r counts =
    if r.success
    then record counts { succeeded = suc counts.succeeded }
    else record counts { failed = suc counts.failed }

abbrev pub empty_result : BulkResult
empty_result = record { succeeded = 0; failed = 0; results = [] }

module _ {S : Type 0} (cli : Option (CommandLine S)) (metadata : Option (Map Text)) where
  abbrev apply_gpon : CommandLine S → Text → ℤ → OnuProfile → S → Result Text (List Text) × S
  apply_gpon c pon_port onu_id profile s =
      let bw =
        find_or_create_bandwidth_profiles (commands_of cli) profile.bandwidth_up
          profile.bandwidth_down s in
      let plain = c.exec_commands (gpon_profile_commands pon_port onu_id profile []) s in
      let with_bandwidth =
        c.exec_commands
          (gpon_profile_commands pon_port onu_id profile (bandwidth_commands onu_id bw.0)) bw.1 in
      if has_bandwidth profile then with_bandwidth else plain

  abbrev as_error : Result Text (List Text) → Check Error
  as_error (ok outputs) = ok tt
  as_error (err m) = err (failed m)

  -- A nil profile panics; here there is one.
  unfoldable pub apply_profile : Text → ℤ → OnuProfile → Run S (Unit {0})
  unfolding gpon_profile_commands epon_profile_commands find_or_create_bandwidth_profiles
      detect_pon_type
  apply_profile pon_port onu_id profile s = elim cli [
    | none ↦ (err (failed (codes "CLI executor not available")), s)
    | some c ↦
        let gpon = apply_gpon c pon_port onu_id profile s in
        let epon = c.exec_commands (epon_profile_commands pon_port onu_id profile) s in
        if is_gpon metadata then (as_error gpon.0, gpon.1) else (as_error epon.0, epon.1)
  ]

  abbrev bulk_bandwidth : BulkProvisionOp → Caching S → List Text × Caching S
  bulk_bandwidth op sc = elim op.profile [
    | none ↦ ([], sc)
    | some profile ↦
        let bw =
          find_or_create_bandwidth_profiles_cached (commands_of cli) profile.bandwidth_up
            profile.bandwidth_down sc in
        if has_bandwidth profile then (bandwidth_commands op.onu_id bw.0, bw.1) else ([], sc)
  ]

  -- The commands for an ONU; there are none unless the network is a GPON.
  unfoldable pub bulk_commands : BulkProvisionOp → Caching S → List Text × Caching S
  unfolding find_or_create_bandwidth_profiles_cached detect_pon_type
  bulk_commands op sc =
      let bandwidth = bulk_bandwidth op sc in
      let commands =
        (codes "interface gpon " ++ op.pon_port)
        ∷ (codes "onu add "
            ++ (itoa op.onu_id
                ++ (codes " profile "
                    ++ (sanitize_cli_param (bulk_profile_name op.profile)
                        ++ (codes " sn " ++ sanitize_cli_param op.serial)))))
        ∷ (vlan_commands op.onu_id op.profile ++ (bandwidth.0 ++ codes "exit" ∷ [])) in
      if is_gpon metadata then (commands, bandwidth.1) else ([], sc)

  module _ (c : CommandLine S) where
    unfoldable pub bulk_op : BulkProvisionOp → Caching S → BulkOpResult × Caching S
    unfolding bulk_commands judge
    bulk_op op sc =
        let (commands, (s, cache)) = bulk_commands op sc in
        let answer = c.exec_commands commands s in (judge op answer.0, (answer.1, cache))

    -- The loop: `counts` has the counts so far, and its results come before the others.
    unfoldable pub bulk_ops : List BulkProvisionOp → BulkResult → Caching S → BulkResult × Caching S
    unfolding bulk_op
    bulk_ops [] counts sc = (counts, sc)
    bulk_ops (op ∷ ops) counts sc =
        let step = bulk_op op sc in
        bulk_ops ops (count step.0 (record counts { results = counts.results ++ step.0 ∷ [] }))
          step.1

    -- A cache that cannot be read is nil.
    abbrev cache_of : Result Error ProfileCache → Option ProfileCache
    cache_of (ok cache) = some cache
    cache_of (err e) = none

    unfoldable pub prefetched : List BulkProvisionOp → S → Caching S
    unfolding new_profile_cache
    prefetched ops s =
        let read = new_profile_cache (commands_of cli) s in
        if exists asks_bandwidth ops then (read.1, cache_of read.0) else (s, none)

    -- The session leaves the configuration after the commit; neither's outcome is looked at.
    abbrev pub bulk_session : List BulkProvisionOp → Caching S → BulkResult × S
    bulk_session ops sc =
        let done = bulk_ops ops empty_result sc in
        let committed = (c.exec_command (codes "commit") done.1.0).1 in
        (done.0, (c.exec_command (codes "end") committed).1)

    abbrev pub configured :
        List BulkProvisionOp
        → Option ProfileCache
        → Result Text Text × S
        → Result Error BulkResult × S
    configured ops cache (err m, s) = (err (failed (codes "failed to enter config mode: " ++ m)), s)
    configured ops cache (ok out, s) =
        let ended = bulk_session ops (s, cache) in (ok ended.0, ended.1)

  unfoldable pub bulk_provision : List BulkProvisionOp → Run S BulkResult
  unfolding prefetched bulk_ops
  bulk_provision ops s = elim cli [
    | none ↦ (err (failed (codes "CLI executor not available")), s)
    | some c ↦
        let (t, cache) = prefetched c ops s in
        configured c ops cache (c.exec_command (codes "configure terminal") t)
  ]
