-- ===== src/Tests/Factory.antt =====
-- The theorems about the factory and the errors of C-Data at concrete inputs.
use mathlib.Core.List.{Perm, Mem, mem-cons_self, mem-cons_of_mem}
use mathlib.Core.List.Perm as ListPerm
use nano_southbound.Prelude.{
  ◌≡◌, ◌⊎◌, refl, inr, Option, none, some, List, [], ◌∷◌, ◌++◌, not, true, Bool, ◌&&◌, ◌||◌, arith,
  if◌then◌else◌,
}
use nano_southbound.Go.Text.{Text, codes, text_eq, text_eq_iff, contains, has_prefix, to_lower}
use nano_southbound.Go.Map.{lookup}
use nano_southbound.Go.Result.{ok, err}
use nano_southbound.Types.Equipment.{EquipmentConfig, vendor_nokia, protocol_rest, vendor_vsol}
use nano_southbound.Factory.{Constructors, base_driver, capability_matrix, new_driver}
use nano_southbound.Factory.Choice.{new_driver-Available}
use nano_southbound.Cdata.ErrorPatterns.{
  cdata_error_patterns, ErrorMapping, mapping, err_config_locked,
}
use nano_southbound.Cdata.Errors.{Error, other_error, translated, error_text, translate_error}
use nano_southbound.Cdata.Errors.Translation.{
  MeansEntry, MeansNothing, every-Mem, occurs, translate_error-means, translate_error-agreed, Entry,
}

-- A driver is the text of what it is made of.
abbrev wrapped : Text → Text → Option EquipmentConfig → Text
wrapped name base config = name ++ base

abbrev make : Constructors Text
make = record {
  mock_driver = λ config. ok (codes "mock");
  netconf_driver = λ config. ok (codes "netconf");
  gnmi_driver = λ config. ok (codes "gnmi");
  cli_driver = λ config. ok (codes "cli");
  snmp_driver = λ config. err (codes "no address");
  nokia_adapter = wrapped (codes "nokia ");
  huawei_adapter = wrapped (codes "huawei ");
  zte_adapter = wrapped (codes "zte ");
  cisco_adapter = wrapped (codes "cisco ");
  juniper_adapter = wrapped (codes "juniper ");
  adtran_adapter = wrapped (codes "adtran ");
  calix_adapter = wrapped (codes "calix ");
  dzs_adapter = wrapped (codes "dzs ");
  fiberhome_adapter = wrapped (codes "fiberhome ");
  ericsson_adapter = wrapped (codes "ericsson ");
  vsol_adapter = wrapped (codes "vsol ");
  cdata_adapter = wrapped (codes "cdata ");
}

-- REST is in the list of V-SOL, and there is no driver for it.
rest_refused :
    new_driver make none vendor_vsol protocol_rest ≡ err (codes "unsupported protocol: rest")
unfolding new_driver base_driver capability_matrix lookup text_eq
rest_refused = refl

new_driver-Available_example : (d : Text) × (new_driver make none vendor_nokia [] ≡ ok d)
unfolding capability_matrix lookup text_eq base_driver
new_driver-Available_example =
    (new_driver-Available make none vendor_nokia []).1
      (_, refl, refl, inr (λ same. cc same, (codes "netconf", refl)))

abbrev locked : Error
locked = other_error (codes "Configuration is LOCKED by admin")

translate_error-means_example :
    MeansEntry cdata_error_patterns (ListPerm.refl cdata_error_patterns) locked
    ⊎ MeansNothing cdata_error_patterns (ListPerm.refl cdata_error_patterns) locked
translate_error-means_example =
    translate_error-means cdata_error_patterns (ListPerm.refl cdata_error_patterns) locked

-- Another order of the table
abbrev swap_first : {A : Type 0} → List A → List A
swap_first [] = []
swap_first (x ∷ []) = x ∷ []
swap_first (x ∷ y ∷ l) = y ∷ x ∷ l

swap_first-Perm : {A : Type 0} (l : List A) → Perm (swap_first l) l
swap_first-Perm [] = ListPerm.refl []
swap_first-Perm (x ∷ []) = ListPerm.refl (x ∷ [])
swap_first-Perm (x ∷ y ∷ l) = ListPerm.swap x y l

abbrev same_mapping : ErrorMapping → ErrorMapping → Bool
same_mapping m n =
    text_eq m.code n.code
    && text_eq m.human n.human
    && text_eq m.action n.action
    && (if m.recoverable then n.recoverable else not n.recoverable)

same_mapping_lem : (m n : ErrorMapping) → same_mapping m n ≡ true → m ≡ n
same_mapping_lem m n h =
    ground
      (arith, text_eq_iff m.code n.code, text_eq_iff m.human n.human, text_eq_iff m.action n.action)

-- The only entry of the table whose pattern occurs in that error
abbrev lock_entry : Entry
lock_entry = (
  codes "configuration is locked",
  mapping err_config_locked (codes "Another session has the configuration lock")
      (codes "Will retry automatically when lock is released") true,
)

locked_agrees :
    (other : Entry)
    → Mem other cdata_error_patterns
    → occurs locked other ≡ true
    → other.1 ≡ lock_entry.1
unfolding cdata_error_patterns error_text to_lower contains has_prefix text_eq
locked_agrees other there here = same_mapping_lem other.1 lock_entry.1 (
    ground (
      arith,
      every-Mem (λ x. not (occurs locked x) || same_mapping x.1 lock_entry.1) other
          cdata_error_patterns refl there,
    ))

translate_error-agreed_example :
    translate_error (swap_first cdata_error_patterns) (some locked)
    ≡ some (translated locked lock_entry.1)
unfolding cdata_error_patterns error_text to_lower contains has_prefix
translate_error-agreed_example =
    translate_error-agreed (swap_first cdata_error_patterns) locked lock_entry
      (swap_first-Perm cdata_error_patterns)
      (mem-cons_of_mem _ (
        mem-cons_of_mem _
          (mem-cons_of_mem _ (mem-cons_of_mem _ (mem-cons_of_mem _ mem-cons_self)))))
      refl locked_agrees
