-- ===== src/Vsol/LineProfile/Listing/Reading.antt =====
-- vendors/vsol/line_profile.go: how a listing is read line by line, and whether the profiles are linked.
use mathlib.Core.Path.{subst}
use nano_southbound.Prelude.{
  ◌≡◌, refl, Bool, true, false, Option, none, some, List, [], ◌∷◌, All, if◌then◌else◌, is_empty,
  Bool-cases, inl, inr,
}
use nano_southbound.Go.Text.{Text, codes, has_prefix, split, to_lower, contains, trim_space}
use nano_southbound.Go.Number.{atoi, value_of}
use nano_southbound.Go.Result.{Result, ok, err, ◌>>=◌, >>=-eq-ok, ok-injective}
use nano_southbound.Types.LineProfile.{LineProfile}
use nano_southbound.Vsol.Session.{Error}
use nano_southbound.Vsol.ProfileText.{
  capture_id, capture_rest, capture_value, on_match, sanitize_profile_output,
}
use nano_southbound.Vsol.LineProfile.Lines.{
  parse_line_profile_gemport, parse_line_profile_service, parse_line_profile_service_port,
  parse_line_profile_mvlan,
}
use nano_southbound.Vsol.LineProfile.Listing.{
  Reader, flush, add_gemport, with_current, add_service, add_service_port, read_member,
  read_detail_of, read_detail, read_line, read_lines, start, parse_line_profiles,
}
use nano_southbound.Vsol.LineProfile.Listing.Parts.{
  parse_line_profile_tcont-empty, parse_line_profile_gemport-empty,
}
use nano_southbound.Vsol.LineProfile.Listing.Linked.{
  IsLinkedProfile, ReaderInv, flush-IsFlushed, with_new_profile-ReaderInv, add_tcont-ReaderInv,
  add_gemport_to-ReaderInv, add_service-ReaderInv, add_service_port-ReaderInv,
}

-- The result is an error, or it has the property.
abbrev Keeps : Result Error Reader → Type 0
Keeps (ok r) = ReaderInv r
Keeps (err e) = Unit

Keeps-bind :
    {A : Type 0} (m : Result Error A) (f : A → Result Error Reader)
    → ((a : A) → m ≡ ok a → Keeps (f a))
    → Keeps (m >>= f)
Keeps-bind (ok a) f k = k a refl
Keeps-bind (err e) f k = tt

Keeps-if : (b : Bool) (m n : Result Error Reader) → Keeps m → Keeps n → Keeps (if b then m else n)
Keeps-if true m n h k = h
Keeps-if false m n h k = k

Keeps-on_match :
    (o : Option Text) (f : Text → Result Error Reader) (m : Result Error Reader)
    → ((t : Text) → Keeps (f t))
    → Keeps m
    → Keeps (on_match o f m)
Keeps-on_match none f m h k = k
Keeps-on_match (some t) f m h k = h t

add_gemport-ReaderInv :
    (r : Reader) (p : LineProfile) (line : Text)
    → ReaderInv r
    → r.current ≡ some p
    → Keeps (do g ← parse_line_profile_gemport line; ok (add_gemport r p g))
unfolding add_gemport
add_gemport-ReaderInv r p line (h, k) e = Keeps-bind _ _ λ g made.
    let (linked, t, ptr) = rw e at k in
    add_gemport_to-ReaderInv r.tcont r p g h linked t e refl
      (parse_line_profile_gemport-empty line made)

read_member-Keeps :
    (r : Reader) (p : LineProfile) (line : Text)
    → ReaderInv r
    → r.current ≡ some p
    → Keeps (read_member r p line)
unfolding read_member
read_member-Keeps r p line (h, k) e =
    let (linked, t, g) = rw e at k in
    Keeps-if (has_prefix line (codes "tcont ")) _ _
      (Keeps-bind _ _
        λ x made. add_tcont-ReaderInv r p x h linked (parse_line_profile_tcont-empty line made))
      (Keeps-if (has_prefix line (codes "gemport ")) _ _ (add_gemport-ReaderInv r p line (h, k) e) (
        Keeps-if (has_prefix line (codes "service-port ")) _ _
          (Keeps-bind (parse_line_profile_service_port line) (λ x. ok (add_service_port r p x))
            λ s made. add_service_port-ReaderInv r p s (h, k) e)
          (Keeps-if (has_prefix line (codes "service ")) _ _
            (Keeps-bind (parse_line_profile_service line) (λ x. ok (add_service r p x))
              λ s made. add_service-ReaderInv r p s (h, k) e)
            (Keeps-if (has_prefix line (codes "mvlan ")) _ _
              (Keeps-bind (parse_line_profile_mvlan line)
                (λ m. ok (with_current r (record p { mvlan = some m })))
                λ m made. (h, (linked, t, g)))
              (h, k)))))

read_detail_of-Keeps :
    (o : Option LineProfile) (r : Reader) (line : Text)
    → ReaderInv r
    → r.current ≡ o
    → Keeps (read_detail_of o r line)
read_detail_of-Keeps none r line h e = h
read_detail_of-Keeps (some p) r line (h, k) e =
    let (linked, t, g) = rw e at k in
    Keeps-on_match (capture_rest (codes "Name:") line) _ _ (λ m. (h, (linked, t, g)))
      (Keeps-on_match (capture_value (codes "commit:") line) _ _ (λ m. (h, (linked, t, g)))
        (read_member-Keeps r p line (h, k) e))

read_line-Keeps : (r : Reader) (raw : Text) → ReaderInv r → Keeps (read_line r raw)
unfolding read_line read_detail
read_line-Keeps r raw h =
    let line = trim_space raw in
    Keeps-if (is_empty line) (ok r) _ h (
      Keeps-on_match (capture_id (codes "Id:") line) _ _
        (λ m. with_new_profile-ReaderInv (flush r) (value_of (atoi m)) (flush-IsFlushed r h))
        (read_detail_of-Keeps r.current r line h refl))

read_lines-Keeps : (lines : List Text) (r : Reader) → ReaderInv r → Keeps (read_lines r lines)
unfolding read_lines
read_lines-Keeps [] r h = h
read_lines-Keeps (raw ∷ rest) r h =
    Keeps-bind (read_line r raw) (λ r'. read_lines r' rest)
      λ r' e. read_lines-Keeps rest r' (rw e at (read_line-Keeps r raw h))

-- Whatever a listing holds: if it is read with no error, every profile that is returned has an id and
-- no nil pointers, every GEM port has a T-CONT id unless that of its T-CONT is 0, and every service
-- and service port has a GEM port id unless that of its GEM port is 0.
pub parse_line_profiles-IsLinkedProfile :
    (output : Text) (ps : List LineProfile)
    → parse_line_profiles output ≡ ok ps
    → All IsLinkedProfile ps
unfolding parse_line_profiles
parse_line_profiles-IsLinkedProfile output ps h =
    elim (Bool-cases (contains (to_lower (sanitize_profile_output output)) (codes "not found"))) [
      | inl e ↦ let h' = rw e at h in subst (All IsLinkedProfile) (ok-injective [] ps h') tt
      | inr e ↦
          let (r, read, last) =
            >>=-eq-ok (read_lines start (split (sanitize_profile_output output) 10)) finish
              (rw e at h) in
          subst (All IsLinkedProfile) (ok-injective (flush r).profiles ps last)
            (flush-IsFlushed r (
              rw read at
                (read_lines-Keeps (split (sanitize_profile_output output) 10) start start-inv))).0
    ]
  where
    finish : Reader → Result Error (List LineProfile)
    finish r = ok (flush r).profiles

    start-inv : ReaderInv start
    start-inv = (tt, (refl, refl))
