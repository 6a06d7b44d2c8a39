-- ===== src/Types/VlanList/RoundTrip.antt =====
-- What `parseVLANList` reads of a list of numbers and ranges, and what `Validate` makes of it.
use nano_southbound.Prelude.{
  ℕ, suc, ◌-◌, ◌^◌, ◌≤◌, ◌<◌, ◌≡◌, ◌≢◌, refl, Bool, true, false, List, [], ◌∷◌, ◌++◌, map, arith,
  every, All, ℤ, pos,
}
use nano_southbound.Go.Text.{Text, codes, contains, split_two, join, is_digit}
use nano_southbound.Go.Text.Words.{Lacks, IsWord, fields_func-join}
use nano_southbound.Go.Number.{atoi-format_nat, format_nat, format_nat-ne-nil, every-format_nat}
use nano_southbound.Go.Result.{each, ok, err}
use nano_southbound.Types.Check.{out_of_bounds, validate_range}
use nano_southbound.Types.VlanList.{
  is_list_separator, range_from, expand_range, parse_range, parse_item, parse_items,
  parse_vlan_list, validate_mvlan,
}

-- An item of a list of VLANs: one number, or a range.
pub data VlanItem : Type 0 where
  single : ℕ → VlanItem
  range : ℕ → ℕ → VlanItem

abbrev pub print_item : VlanItem → Text
print_item (single v) = format_nat v
print_item (range a b) = format_nat a ++ b'-' ∷ format_nat b

-- The numbers from `a` on, as many as the range has.
abbrev pub members : VlanItem → List ℤ
members (single v) = pos v ∷ []
members (range a b) = range_from (pos a) (suc (b - a))

abbrev pub all_members : List VlanItem → List ℤ
all_members [] = []
all_members (i ∷ is) = members i ++ all_members is

-- Numbers below the largest `int`, and ranges that do not go down.
abbrev pub IsItem : VlanItem → Type 0
IsItem (single v) = v < 2 ^ 63
IsItem (range a b) = (a ≤ b) × (b < 2 ^ 63 - 1)

contains-dash_no : (s : Text) → every is_digit s ≡ true → contains s (codes "-") ≡ false
unfolding contains
contains-dash_no [] h = refl
contains-dash_no (c ∷ s) h = ground (arith, contains-dash_no s)

contains-dash : (s t : Text) → contains (s ++ b'-' ∷ t) (codes "-") ≡ true
unfolding contains
contains-dash [] t = ground arith
contains-dash (c ∷ s) t = ground (arith, contains-dash s t)

split_two-dash :
    (s t : Text) → every is_digit s ≡ true → split_two (s ++ b'-' ∷ t) b'-' ≡ s ∷ t ∷ []
unfolding split_two
split_two-dash [] t h = ground arith
split_two-dash (c ∷ s) t h = ground (arith, split_two-dash s t)

expand_range-up :
    (item : Text) (a b : ℕ)
    → a ≤ b
    → b < 2 ^ 63 - 1
    → expand_range item (pos a) (pos b) ≡ ok (range_from (pos a) (suc (b - a)))
unfolding expand_range
expand_range-up item a b h k = ground arith

parse_range-print :
    (item : Text) (a b : ℕ)
    → a ≤ b
    → b < 2 ^ 63 - 1
    → parse_range item (format_nat a ∷ format_nat b ∷ []) ≡ ok (range_from (pos a) (suc (b - a)))
parse_range-print item a b h k =
    unfold parse_range in
    rw (atoi-format_nat a (omega arith), atoi-format_nat b (omega arith))
      (expand_range-up item a b h k)

parse_item-print : (i : VlanItem) → IsItem i → parse_item (print_item i) ≡ ok (members i)
unfolding parse_item
parse_item-print (single v) h =
    rw (contains-dash_no (format_nat v) (every-format_nat v), atoi-format_nat v h)
parse_item-print (range a b) h =
    rw
      (
        contains-dash (format_nat a) (format_nat b),
        split_two-dash (format_nat a) (format_nat b) (every-format_nat a),
        atoi-format_nat a (omega arith),
        atoi-format_nat b (omega arith),
      )
      (expand_range-up (print_item (range a b)) a b h.0 h.1)

parse_items-print :
    (is : List VlanItem) → All IsItem is → parse_items (map print_item is) ≡ ok (all_members is)
unfolding parse_items
parse_items-print [] h = refl
parse_items-print (i ∷ is) h = rw (parse_item-print i h.0, parse_items-print is h.1)

digits-Lacks : (s : Text) → every is_digit s ≡ true → Lacks is_list_separator s
digits-Lacks [] h = refl
digits-Lacks (c ∷ s) h = ground (arith, digits-Lacks s)

every-append :
    (p : ℕ → Bool) (s t : Text) → every p s ≡ true → every p t ≡ true → every p (s ++ t) ≡ true
every-append p [] t h k = k
every-append p (c ∷ s) t h k = ground (arith, every-append p s t)

append-ne-nil : (s t : Text) → s ≢ [] → s ++ t ≢ []
append-ne-nil [] t h = absurd (h refl)
append-ne-nil (c ∷ s) t h = λ e. cc

print_item-IsWord : (i : VlanItem) → IsWord is_list_separator (print_item i)
print_item-IsWord (single v) =
    (format_nat-ne-nil v, digits-Lacks (format_nat v) (every-format_nat v))
print_item-IsWord (range a b) = (
  append-ne-nil (format_nat a) (b'-' ∷ format_nat b) (format_nat-ne-nil a),
  every-append _ (format_nat a) (b'-' ∷ format_nat b)
      (digits-Lacks (format_nat a) (every-format_nat a))
      (digits-Lacks (format_nat b) (every-format_nat b)),
)

map-IsWord : (is : List VlanItem) → All (IsWord is_list_separator) (map print_item is)
map-IsWord [] = tt
map-IsWord (i ∷ is) = (print_item-IsWord i, map-IsWord is)

-- A list of numbers and ranges that commas, blanks or semicolons separate is read as its members, in
-- order: every number once, and every range from its start to its end.
pub parse_vlan_list-print :
    (sep : ℕ) (i : VlanItem) (is : List VlanItem)
    → is_list_separator sep ≡ true
    → All IsItem (i ∷ is)
    → parse_vlan_list (join (map print_item (i ∷ is)) (sep ∷ [])) ≡ ok (all_members (i ∷ is))
parse_vlan_list-print sep i is e h =
    unfold parse_vlan_list in
    rw (fields_func-join is_list_separator sep (map print_item (i ∷ is)) e (map-IsWord (i ∷ is)))
      (parse_items-print (i ∷ is) h)

parse_vlan_list-single : (v : ℕ) → v < 2 ^ 63 → parse_vlan_list (format_nat v) ≡ ok (pos v ∷ [])
parse_vlan_list-single v h = unfold join in parse_vlan_list-print b',' (single v) [] refl (h, tt)

raw_accepted :
    (v : ℕ)
    → v < 2 ^ 63
    → validate_mvlan (record { vlans = []; raw = format_nat v })
      ≡ ok (record { vlans = pos v ∷ []; raw = format_nat v })
unfolding validate_mvlan
raw_accepted v k = ground (arith, parse_vlan_list-single v k, format_nat-ne-nil v)

stored_refused :
    (v : ℕ)
    → 4094 < v
    → validate_mvlan (record { vlans = pos v ∷ []; raw = format_nat v })
      ≡ err (out_of_bounds (codes "mvlan") (pos 1) (pos 4094))
unfolding validate_mvlan each validate_range
stored_refused v h = ground arith

-- `Validate` of a raw VLAN list checks no range: a single number above 4094 is accepted and stored,
-- and a second `Validate` of the same value refuses what the first one stored.
pub mvlan_raw_unchecked :
    (v : ℕ)
    → 4094 < v
    → v < 2 ^ 63
    → (validate_mvlan (record { vlans = []; raw = format_nat v })
        ≡ ok (record { vlans = pos v ∷ []; raw = format_nat v }))
      × (validate_mvlan (record { vlans = pos v ∷ []; raw = format_nat v })
          ≡ err (out_of_bounds (codes "mvlan") (pos 1) (pos 4094)))
mvlan_raw_unchecked v h k = (raw_accepted v k, stored_refused v h)
