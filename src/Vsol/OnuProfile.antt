-- ===== src/Vsol/OnuProfile.antt =====
-- vendors/vsol/onu_profile.go: ONU hardware profiles. Listings are read in the child `Listing`, and the
-- methods of `types.ONUProfileManager` are in the child `Manager`.
pub mod Listing
pub mod Manager
use nano_southbound.Prelude.{Bool, true, false, Option, none, some, List, [], ◌∷◌, ◌++◌, ℤ}
use nano_southbound.Go.Text.{Text, codes}
use nano_southbound.Go.Number.{itoa}
use nano_southbound.Go.Quote.{quote}
use nano_southbound.Types.OnuProfile.{OnuProfilePorts, OnuHardwareProfile}

-- `if x != nil { commands = append(commands, …) }`
abbrev pub if_given : {A : Type 0} → Option A → (A → Text) → List Text
if_given none f = []
if_given (some a) f = f a ∷ []

abbrev pub enable_or_disable : Text → Bool → Text
enable_or_disable option true = option ++ codes " enable"
enable_or_disable option false = option ++ codes " disable"

abbrev pub port_commands : Option OnuProfilePorts → List Text
port_commands none = []
port_commands (some p) =
    if_given p.eth (λ n. codes "port-num eth " ++ itoa n)
    ++ (if_given p.pots (λ n. codes "port-num pots " ++ itoa n)
        ++ (if_given p.iphost (λ n. codes "port-num iphost " ++ itoa n)
            ++ (if_given p.ipv6host (λ n. codes "port-num ipv6host " ++ itoa n)
                ++ if_given p.veip (λ n. codes "port-num veip " ++ itoa n))))

-- Both numbers stand in one command.
abbrev pub tcont_gemport_command : Option ℤ → Option ℤ → List Text
tcont_gemport_command (some t) (some g) =
    (codes "tcont-num " ++ (itoa t ++ (codes " gemport-num " ++ itoa g))) ∷ []
tcont_gemport_command (some t) none = []
tcont_gemport_command none g = []

unfoldable pub build_onu_profile_create_commands : OnuHardwareProfile → List Text
build_onu_profile_create_commands p =
    codes "configure terminal"
    ∷ (codes "profile onu name " ++ p.name)
    ∷ (port_commands p.ports
        ++ (tcont_gemport_command p.tcont_num p.gemport_num
            ++ (if_given p.switch_num (λ n. codes "switch-num " ++ itoa n)
                ++ (if_given p.service_ability (λ s. codes "service-ability " ++ s)
                    ++ (if_given p.omci_send_mode (λ s. codes "omci-send-mode " ++ s)
                        ++ (if_given p.ex_omci (enable_or_disable (codes "ex-omci"))
                            ++ (if_given p.wifi_mng_via_non_omci
                                  (enable_or_disable (codes "wifi-mng-via-non-omci"))
                                ++ (if_given p.default_multicast_range
                                      (λ s. codes "default-multicast-range " ++ s)
                                    ++ (if_given p.description
                                          (λ s. codes "description " ++ quote s)
                                        ++ codes "commit"
                                          ∷ codes "exit"
                                          ∷ codes "exit"
                                          ∷ [])))))))))
