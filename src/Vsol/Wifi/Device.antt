-- ===== src/Vsol/Wifi/Device.antt =====
-- What the Wi-Fi methods of vendors/vsol/wifi.go use: the device, the inventory of its ONUs, and
-- `GetONURunningConfig` of vendors/vsol/adapter.go.
use nano_southbound.Prelude.{
  Bool, ◌||◌, Option, none, some, List, [], ◌∷◌, ◌++◌, if◌then◌else◌, exists, ℤ,
}
use nano_southbound.Go.Text.{Text, codes, to_lower, contains, join}
use nano_southbound.Go.Number.{itoa}
use nano_southbound.Go.Result.{Result, ok, err}

-- The fields of `types.ONUInfo` that are read
pub record OnuInfo : Type 0 where
  pub serial : Text
  pub pon_port : Text
  pub onu_id : ℤ
  pub is_online : Bool
  pub oper_state : Text
  pub model : Text

-- A method that may return early: `E` is what it returns then.
abbrev pub Act : Type 0 → Type 0 → Type 0 → Type 0
Act S E A = S → Result E A × S

module _ {S E A B : Type 0} where
  abbrev continue : Result E A → (A → Act S E B) → Act S E B
  continue (ok a) f s = f a s
  continue (err e) f s = (err e, s)

  infixl 5 ◌>>=◌
  abbrev pub ◌>>=◌ : Act S E A → (A → Act S E B) → Act S E B
  ◌>>=◌ m f s = continue (m s).0 f (m s).1

abbrev pub give : {S E A : Type 0} → A → Act S E A
give a s = (ok a, s)

abbrev pub stop : {S E A : Type 0} → E → Act S E A
stop e s = (err e, s)

-- A call whose error is looked at
abbrev pub tried : {S E F A : Type 0} → Act S E A → Act S F (Result E A)
tried m s = (ok (m s).0, (m s).1)

-- The CLI executor: `ExecCommands` and `ExecCommand`, each with its outputs also where it fails, and
-- the inventory: `GetONUList` with a filter on the serial number, and `GetONUBySerial`
pub record Device (S : Type 0) : Type 0 where
  pub exec_commands : List Text → S → (List Text × Option Text) × S
  pub exec_command : Text → S → (Text × Option Text) × S
  pub list_by_serial : Text → Act S Text (List OnuInfo)
  pub get_by_serial : Text → Act S Text (Option OnuInfo)

abbrev shows_unknown : List Text → Bool
shows_unknown outputs =
    exists
      (λ out.
        contains (to_lower out) (codes "unknown command")
        || contains (to_lower out) (codes "error:"))
      outputs

module _ {S : Type 0} (device : Device S) where
  -- The whole configuration, where the device does not know that of one ONU
  abbrev full_config : Option Text → Act S Text Text
  full_config first_error s =
      let r =
        device.exec_commands
          (codes "end" ∷ codes "terminal length 0" ∷ codes "show running-config" ∷ []) s in
      elim r.0.1 [
        | none ↦ (ok (join r.0.0 (codes "\n")), r.1)
        | some m ↦ (
          err (
              codes "failed to get ONU running config: "
              ++ elim first_error [ none ↦ m | some first ↦ first ]),
          r.1,
        )
      ]

  unfoldable pub get_onu_running_config : Text → ℤ → Act S Text Text
  get_onu_running_config pon_port onu_id s =
      let r =
        device.exec_commands
          (codes "configure terminal"
            ∷ (codes "interface gpon " ++ pon_port)
            ∷ (codes "show running-config onu " ++ itoa onu_id)
            ∷ codes "exit"
            ∷ codes "exit"
            ∷ [])
          s in
      let fallback = full_config r.0.1 r.1 in
      elim r.0.1 [
        | some m ↦ fallback
        | none ↦ if shows_unknown r.0.0 then fallback else (ok (join r.0.0 (codes "\n")), r.1)
      ]
