-- ===== src/Drivers/Mock/Outputs.antt =====
-- drivers/mock/driver.go: the outputs of commands, `ExecCommand` and `ExecCommands`.
use nano_southbound.Prelude.{
  ℕ, zero, suc, ◌-◌, ◌%◌, ◌||◌, Option, none, some, List, [], ◌∷◌, ◌++◌, if◌then◌else◌, length, pos,
}
use nano_southbound.Go.Text.{Text, codes, to_lower, contains}
use nano_southbound.Go.Number.{itoa, format_nat}
use nano_southbound.Go.Result.{Result, ok, err}
use nano_southbound.Drivers.Mock.State.{MockOnu, Driver}
use nano_southbound.Drivers.Mock.Calls.{Call, record_command, guarded}

unfoldable pub spaces : ℕ → Text
spaces zero = []
spaces (suc n) = b' ' ∷ spaces n

-- The verbs `%-8s` and `%4d`: a text filled up with spaces on its right or its left
abbrev pad_right : ℕ → Text → Text
pad_right width s = s ++ spaces (width - length s)

abbrev pad_left : ℕ → Text → Text
pad_left width s = spaces (width - length s) ++ s

-- `one_decimal` is the verb `%.1f`.
module _ {F : Type 0} (one_decimal : F → Text) where
  unfoldable pub onu_line : MockOnu F → Text
  onu_line onu =
      pad_right 8 onu.pon_port
      ++ (codes "  "
          ++ (pad_right 18 onu.serial
              ++ (codes "  "
                  ++ (pad_right 16 onu.mac
                      ++ (codes "  "
                          ++ (pad_right 12 onu.model
                              ++ (codes "  "
                                  ++ (pad_left 4 (itoa onu.distance)
                                      ++ (codes "m     "
                                          ++ (one_decimal onu.rx_power ++ codes "dBm\n"))))))))))

  unfoldable pub onu_lines : List (MockOnu F) → Text
  onu_lines [] = []
  onu_lines (onu ∷ onus) = onu_line onu ++ onu_lines onus

  unfoldable pub autofind_output : List (MockOnu F) → Text
  autofind_output onus =
      codes "Port      Serial              MAC               Model         Distance  Rx Power\n"
      ++ (codes "--------  ------------------  ----------------  ------------  --------  --------\n"
          ++ (onu_lines onus
              ++ (codes "\nTotal: " ++ (itoa (pos (length onus)) ++ codes " ONU(s) discovered\n"))))

-- The text is not formatted: its last line shows the verb.
unfoldable pub version_output : Text
version_output =
    codes
      "\nSystem Information\n==================\nModel:          Mock OLT Simulator\nVersion:        1.0.0\nSerial Number:  MOCK-SIM-001\nUptime:         10 days, 5:30:22\nCPU Usage:      15%\nMemory Usage:   42%\nTemperature:    45C\n\nPON Ports:      8 GPON\nActive ONUs:    %d\n"

unfoldable pub onu_info_output : Text
onu_info_output =
    codes
      "\nONU Information\n===============\nRun state:          online\nConfig state:       normal\nOnline duration:    5 days 12:30:45\nRx optical power:   -19.5 dBm\nTx optical power:   2.3 dBm\nOLT Rx ONT power:   -20.1 dBm\nTemperature:        42 C\n"

-- `uint64` are the draws of `rand.Uint64` in their order.
unfoldable pub stats_output : (ℕ → ℕ) → Text
stats_output uint64 =
    codes "\nONU Traffic Statistics\n======================\nUpstream traffic:   "
    ++ (format_nat (uint64 0 % 100000000)
        ++ (codes " bytes\nDownstream traffic: "
            ++ (format_nat (uint64 1 % 1000000000)
                ++ (codes " bytes\nUpstream packets:   "
                    ++ (format_nat (uint64 2 % 1000000)
                        ++ (codes "\nDownstream packets: "
                            ++ (format_nat (uint64 3 % 10000000)
                                ++ codes "\nErrors:             0\nDrops:              0\n")))))))

module _ {C T F : Type 0} (one_decimal : F → Text) (uint64 : ℕ → ℕ) where
  abbrev output_of : Text → Driver C T F → Text
  output_of command d =
      let lower = to_lower command in
      if contains lower (codes "autofind") || contains lower (codes "uncfg")
      then autofind_output one_decimal d.onus
      else if contains lower (codes "version") || contains lower (codes "system")
      then version_output
      else if contains lower (codes "onu-info") || contains lower (codes "ont info")
      then onu_info_output
      else if contains lower (codes "statistics") || contains lower (codes "traffic")
      then stats_output uint64
      else codes "OK: " ++ command

  unfoldable pub exec_command : Text → Call (Driver C T F) Text
  exec_command command d =
      guarded d.connected (ok (output_of command d), record_command command d) d

-- What is returned of a batch: the outputs up to the first error, and that error if there is one
abbrev pub Batch : Type 0
Batch = List Text × Option Text

module _ {C T F : Type 0} (one_decimal : F → Text) where
  abbrev on_output :
      Result Text Text × Driver C T F → (Driver C T F → Batch × Driver C T F) → Batch × Driver C T F
  on_output (ok output, d) next = ((output ∷ (next d).0.0, (next d).0.1), (next d).1)
  on_output (err e, d) next = (([], some e), d)

  -- `uint64 i` are the draws of the command with the index `i`; the lock is given back between two
  -- commands.
  unfoldable pub exec_commands : (ℕ → ℕ → ℕ) → ℕ → List Text → Driver C T F → Batch × Driver C T F
  unfolding exec_command
  exec_commands uint64 i [] d = (([], none), d)
  exec_commands uint64 i (command ∷ commands) d =
      on_output (exec_command one_decimal (uint64 i) command d)
        (exec_commands uint64 (suc i) commands)
