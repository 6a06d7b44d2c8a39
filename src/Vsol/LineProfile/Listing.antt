-- ===== src/Vsol/LineProfile/Listing.antt =====
-- vendors/vsol/line_profile.go: `parseLineProfiles`, the parser of a listing. The pointers
-- `currentTcont` and `currentGemport` point at what was appended last: `currentTcont` at the last
-- T-CONT of the profile, and `currentGemport` at the last GEM port of that T-CONT, or at a GEM port
-- that is part of nothing, if its line came before any T-CONT.
mod Pointers
mod Parts
pub mod Linked
pub mod Reading
use nano_southbound.Prelude.{
  Bool, true, Option, none, some, List, [], ◌∷◌, ◌++◌, if◌then◌else◌, is_empty, is_some, ℤ,
}
use nano_southbound.Go.Text.{
  Text, codes, to_lower, contains, split, trim_space, has_prefix, equal_fold,
}
use nano_southbound.Go.Number.{atoi, value_of}
use nano_southbound.Go.Result.{Result, ok, err, ◌>>=◌}
use nano_southbound.Types.LineProfile.{
  LineProfileService, LineProfileServicePort, LineProfileGemport, LineProfileTcont, LineProfile,
}
use nano_southbound.Vsol.Session.{Error}
use nano_southbound.Vsol.ProfileText.{
  sanitize_profile_output, capture_id, capture_rest, capture_value, on_match,
}
use nano_southbound.Vsol.LineProfile.{own_or}
use nano_southbound.Vsol.LineProfile.Lines.{
  parse_line_profile_tcont, parse_line_profile_gemport, parse_line_profile_service,
  parse_line_profile_service_port, parse_line_profile_mvlan,
}

-- `currentGemport`, with the id of the GEM port that it points at
pub data GemportPointer : Type 0 where
  nil : GemportPointer
  last_of_tcont : ℤ → GemportPointer
  loose : ℤ → GemportPointer

-- The variables of the loop; `tcont` is the id of what `currentTcont` points at.
pub record Reader : Type 0 where
  pub profiles : List LineProfile
  pub current : Option LineProfile
  pub tcont : Option ℤ
  pub gemport : GemportPointer

abbrev pub new_profile : ℤ → LineProfile
new_profile id = record { name = []; id = some id; tconts = []; mvlan = none; committed = none }

abbrev pub is_complete : LineProfile → Bool
is_complete p = if is_empty p.name then is_some p.id else true

-- The closure `flush`, by `current`
abbrev flush_current : Option LineProfile → Reader → Reader
flush_current none r = r
flush_current (some p) r = record {
  profiles = if is_complete p then r.profiles ++ p ∷ [] else r.profiles;
  current = none;
  tcont = none;
  gemport = nil;
}

pub flush : Reader → Reader
flush r = flush_current r.current r

-- A change of what a pointer to the last entry points at
pub update_last : {A : Type 0} → (A → A) → List (Option A) → List (Option A)
update_last f [] = []
update_last f (none ∷ []) = none ∷ []
update_last f (some a ∷ []) = some (f a) ∷ []
update_last f (x ∷ y ∷ xs) = x ∷ update_last f (y ∷ xs)

abbrev pub with_current : Reader → LineProfile → Reader
with_current r p = record r { current = some p }

pub add_tcont : Reader → LineProfile → LineProfileTcont → Reader
add_tcont r p t = record {
  profiles = r.profiles;
  current = some (record p { tconts = p.tconts ++ some t ∷ [] });
  tcont = some t.id;
  gemport = nil;
}

abbrev pub append_gemport : LineProfileGemport → LineProfileTcont → LineProfileTcont
append_gemport g t = record t { gemports = t.gemports ++ some g ∷ [] }

-- By `currentTcont`
abbrev add_gemport_to : Option ℤ → Reader → LineProfile → LineProfileGemport → Reader
add_gemport_to none r p g = record r { gemport = loose g.id }
add_gemport_to (some t) r p g = record r {
  current = some (record p {
    tconts = update_last (append_gemport (record g { tcont_id = own_or g.tcont_id t })) p.tconts;
  });
  gemport = last_of_tcont g.id;
}

pub add_gemport : Reader → LineProfile → LineProfileGemport → Reader
unfolding update_last
add_gemport r p g = add_gemport_to r.tcont r p g

abbrev pub update_gemport :
    (LineProfileGemport → LineProfileGemport) → LineProfileTcont → LineProfileTcont
update_gemport f t = record t { gemports = update_last f t.gemports }

abbrev pub append_service : LineProfileService → LineProfileGemport → LineProfileGemport
append_service s g = record g { services = g.services ++ some s ∷ [] }

abbrev pub append_service_port : LineProfileServicePort → LineProfileGemport → LineProfileGemport
append_service_port s g = record g { service_ports = g.service_ports ++ some s ∷ [] }

-- A part `x` is added to what `currentGemport` points at, with the id of that GEM port if it has none.
-- What is added to a GEM port that is part of nothing is lost with it.
abbrev add_part_to :
    GemportPointer → (ℤ → LineProfileGemport → LineProfileGemport) → Reader → LineProfile → Reader
add_part_to nil append r p = r
add_part_to (loose id) append r p = r
add_part_to (last_of_tcont id) append r p =
    with_current r (record p { tconts = update_last (update_gemport (append id)) p.tconts })

pub add_service : Reader → LineProfile → LineProfileService → Reader
unfolding update_last
add_service r p s =
    add_part_to r.gemport (λ id. append_service (record s { gemport_id = own_or s.gemport_id id }))
      r p

pub add_service_port : Reader → LineProfile → LineProfileServicePort → Reader
unfolding update_last
add_service_port r p s =
    add_part_to r.gemport
      (λ id. append_service_port (record s { gemport_id = own_or s.gemport_id id })) r p

-- A line that belongs to the profile `p` that is being read
pub read_member : Reader → LineProfile → Text → Result Error Reader
unfolding add_tcont add_gemport add_service add_service_port
read_member r p line =
    if has_prefix line (codes "tcont ")
    then (do t ← parse_line_profile_tcont line; ok (add_tcont r p t))
    else if has_prefix line (codes "gemport ")
    then (do g ← parse_line_profile_gemport line; ok (add_gemport r p g))
    else if has_prefix line (codes "service-port ")
    then (do s ← parse_line_profile_service_port line; ok (add_service_port r p s))
    else if has_prefix line (codes "service ")
    then (do s ← parse_line_profile_service line; ok (add_service r p s))
    else if has_prefix line (codes "mvlan ")
    then (do m ← parse_line_profile_mvlan line; ok (with_current r (record p { mvlan = some m })))
    else ok r

-- A line that is not empty and has no id, by `current`
abbrev read_detail_of : Option LineProfile → Reader → Text → Result Error Reader
read_detail_of none r line = ok r
read_detail_of (some p) r line =
    on_match (capture_rest (codes "Name:") line)
      (λ m. ok (with_current r (record p { name = trim_space m })))
      (on_match (capture_value (codes "commit:") line)
        (λ m. ok (
          with_current r (record p { committed = some (equal_fold (trim_space m) (codes "yes")) })))
        (read_member r p line))

pub read_detail : Reader → Text → Result Error Reader
unfolding read_member
read_detail r line = read_detail_of r.current r line

-- One round of the loop
pub read_line : Reader → Text → Result Error Reader
unfolding flush read_detail
read_line r raw =
    let line = trim_space raw in
    if is_empty line
    then ok r
    else on_match (capture_id (codes "Id:") line)
        (λ m. ok (with_current (flush r) (new_profile (value_of (atoi m))))) (read_detail r line)

pub read_lines : Reader → List Text → Result Error Reader
unfolding read_line
read_lines r [] = ok r
read_lines r (raw ∷ rest) = do r' ← read_line r raw; read_lines r' rest

abbrev pub start : Reader
start = record { profiles = []; current = none; tcont = none; gemport = nil }

unfoldable pub parse_line_profiles : Text → Result Error (List LineProfile)
unfolding read_lines flush
parse_line_profiles output =
    let clean = sanitize_profile_output output in
    if contains (to_lower clean) (codes "not found")
    then ok []
    else (do r ← read_lines start (split clean 10); ok (flush r).profiles)
