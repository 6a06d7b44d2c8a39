-- ===== src/Types/VlanList.antt =====
-- types/line_profile.go: multicast VLANs, `(m *LineProfileMvlan) Validate` and `parseVLANList`.
pub mod RoundTrip
use nano_southbound.Prelude.{
  ℕ, zero, suc, ◌+◌, ◌-◌, ◌==◌, Bool, true, false, not, ◌||◌, Option, none, some, List, [], ◌∷◌,
  ◌++◌, if◌then◌else◌, is_empty, ℤ, pos, pos_part, neg_part, ◌+ℤ◌, ltb_ℤ, eqb_ℤ, max_int,
}
use nano_southbound.Go.Text.{Text, codes, contains, fields_func, split_two}
use nano_southbound.Go.Number.{atoi, success}
use nano_southbound.Go.Result.{Result, ok, err, ◌>>=◌, ◌>>◌, Check, each}
use nano_southbound.Types.Check.{
  Error, empty_mvlan, invalid_mvlan, invalid_mvlan_range, endless, validate_range,
}

pub record LineProfileMvlan : Type 0 where
  pub vlans : List ℤ
  pub raw : Text

abbrev pub is_list_separator : ℕ → Bool
is_list_separator c = c == b',' || c == b' ' || c == b';'

-- `n` numbers from `start` on
pub range_from : ℤ → ℕ → List ℤ
range_from start zero = []
range_from start (suc n) = start ∷ range_from (start +ℤ pos 1) n

-- The number of values from `start` to `end`, which is not below it.
abbrev pub range_size : ℤ → ℤ → ℕ
range_size start end = suc (pos_part end + neg_part start - (pos_part start + neg_part end))

-- `for vlan := start; vlan <= end; vlan++`: the counter cannot pass the largest `int`.
expand_range : Text → ℤ → ℤ → Result Error (List ℤ)
unfolding range_from
expand_range item start end =
    if ltb_ℤ end start
    then err (invalid_mvlan_range item)
    else if eqb_ℤ end max_int
    then err endless
    else ok (range_from start (range_size start end))

abbrev or_fail : Option ℤ → Error → Result Error ℤ
or_fail none e = err e
or_fail (some v) e = ok v

-- An item with a dash
parse_range : Text → List Text → Result Error (List ℤ)
unfolding expand_range
parse_range item (first ∷ second ∷ []) = do
  start ← or_fail (success (atoi first)) (invalid_mvlan_range item)
  end ← or_fail (success (atoi second)) (invalid_mvlan_range item)
  expand_range item start end
parse_range item _ = err (invalid_mvlan_range item)

parse_single : Text → Result Error (List ℤ)
parse_single item = do v ← or_fail (success (atoi item)) (invalid_mvlan item); ok (v ∷ [])

-- One round of the loop over the items
unfoldable pub parse_item : Text → Result Error (List ℤ)
unfolding parse_range parse_single
parse_item item =
    if contains item (codes "-") then parse_range item (split_two item b'-') else parse_single item

unfoldable pub parse_items : List Text → Result Error (List ℤ)
unfolding parse_item
parse_items [] = ok []
parse_items (item ∷ rest) =
    let later = parse_items rest in do vs ← parse_item item; ws ← later; ok (vs ++ ws)

abbrev some_items : List Text → Result Error (List ℤ)
some_items [] = err empty_mvlan
some_items (item ∷ rest) = parse_items (item ∷ rest)

unfoldable pub parse_vlan_list : Text → Result Error (List ℤ)
unfolding parse_items
parse_vlan_list raw = some_items (fields_func is_list_separator raw)

abbrev pub validate_vlan : ℤ → Check Error
validate_vlan v = validate_range (codes "mvlan") v (pos 1) (pos 4094)

-- The mvlan that `Validate` leaves: the raw list is parsed where no VLANs are given.
unfoldable pub validate_mvlan : LineProfileMvlan → Result Error LineProfileMvlan
unfolding parse_vlan_list
validate_mvlan m =
    if not (is_empty m.vlans)
    then (each validate_vlan m.vlans >> ok m)
    else if is_empty m.raw
    then ok m
    else do vs ← parse_vlan_list m.raw; ok (record m { vlans = vs })
