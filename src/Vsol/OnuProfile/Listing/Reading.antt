-- ===== src/Vsol/OnuProfile/Listing/Reading.antt =====
-- Which profiles the parser of a listing of ONU profiles returns.
use nano_southbound.Prelude.{
  ◌≡◌, refl, ◌∙◌, sym, ap, true, Option, none, some, List, [], ◌∷◌, ◌++◌, map, if◌then◌else◌,
  is_empty, Bool-cases, inl, inr, ℤ, append_assoc, append-nil, map-append,
}
use nano_southbound.Go.Text.{Text, codes, split, contains, trim_space}
use nano_southbound.Go.Number.{atoi, value_of}
use nano_southbound.Go.Result.{Result, ok, err, ◌>>=◌, >>=-eq-ok, ok-injective}
use nano_southbound.Types.OnuProfile.{OnuHardwareProfile}
use nano_southbound.Vsol.Session.{Error}
use nano_southbound.Vsol.ProfileText.{capture_id, on_match, sanitize_profile_output}
use nano_southbound.Vsol.OnuProfile.Listing.{
  Reader, new_profile, read_member, flushed, read_detail, read_line, read_lines, start,
  parse_onu_profiles,
}
use nano_southbound.Vsol.OnuProfile.Listing.Members.{HasId, read_member-HasId}

abbrev pub id_of : OnuHardwareProfile → Option ℤ
id_of p = p.id

-- The id that a line announces, if any
abbrev pub announced_by : Text → List (Option ℤ)
announced_by raw =
    on_match (capture_id (codes "Id:") (trim_space raw)) (λ m. some (value_of (atoi m)) ∷ []) []

-- The ids that the lines of a listing announce, in their order
abbrev pub announced : List Text → List (Option ℤ)
announced [] = []
announced (raw ∷ rest) = announced_by raw ++ announced rest

-- The ids of the profiles read so far; the profile that is being read has one.
abbrev ids : Reader → List (Option ℤ)
ids r = map id_of (flushed r.profiles r.current)

abbrev HasCurrentId : Option OnuHardwareProfile → Type 0
HasCurrentId none = Unit
HasCurrentId (some p) = (i : ℤ) × (p.id ≡ some i)

flushed-some :
    (ps : List OnuHardwareProfile) (p : OnuHardwareProfile) (i : ℤ)
    → p.id ≡ some i
    → flushed ps (some p) ≡ ps ++ p ∷ []
flushed-some ps p i h = elim (Bool-cases (is_empty p.name)) [
  | inl e ↦ rw (e, h)
  | inr e ↦ rw (e, h)
]

ids-some :
    (ps : List OnuHardwareProfile) (p : OnuHardwareProfile) (i : ℤ)
    → p.id ≡ some i
    → map id_of (flushed ps (some p)) ≡ map id_of ps ++ some i ∷ []
ids-some ps p i h =
    ap (map id_of) (flushed-some ps p i h)
    ∙ map-append id_of ps (p ∷ [])
    ∙ ap (λ x. map id_of ps ++ x ∷ []) h

-- The result of a line is an error, or the ids are those from before with those that are announced.
abbrev Adds : Reader → List (Option ℤ) → Result Error Reader → Type 0
Adds r new (ok r') = HasCurrentId r'.current × (ids r' ≡ ids r ++ new)
Adds r new (err e) = Unit

read_detail-Adds :
    (ps : List OnuHardwareProfile) (o : Option OnuHardwareProfile) (line : Text)
    → HasCurrentId o
    → Adds (record { profiles = ps; current = o }) [] (read_detail ps o line)
read_detail-Adds ps none line h = (tt, sym (append-nil (map id_of ps)))
read_detail-Adds ps (some p) line (i, h) =
    on_member (read_member p line) (read_member-HasId (some i) p line h)
  where
    on_member :
        (m : Result Error OnuHardwareProfile)
        → HasId (some i) m
        → Adds
            (record { profiles = ps; current = some p })
            []
            (do p' ← m; ok (record { profiles = ps; current = some p' }))
    on_member (err e) k = tt
    on_member (ok p') k =
        ((i, k), ids-some ps p' i k ∙ sym (ids-some ps p i h) ∙ sym (append-nil _))

capture_id-nil : capture_id (codes "Id:") [] ≡ none
unfolding capture_id
capture_id-nil = refl

is_empty-eq_nil : (l : Text) → is_empty l ≡ true → l ≡ []
is_empty-eq_nil [] h = refl
is_empty-eq_nil (c ∷ l) h = cc

read_line-Adds :
    (r : Reader) (raw : Text) → HasCurrentId r.current → Adds r (announced_by raw) (read_line r raw)
unfolding read_line
read_line-Adds r raw h = elim (Bool-cases (is_empty (trim_space raw))) [
  | inl e ↦ rw (is_empty-eq_nil _ e, capture_id-nil) (h, sym (append-nil (ids r)))
  | inr e ↦ rw e (on_header (capture_id (codes "Id:") (trim_space raw)))
]
  where
    on_header :
        (o : Option Text)
        → Adds r (on_match o (λ m. some (value_of (atoi m)) ∷ []) []) (
            on_match o
              (λ m. ok (record {
                profiles = flushed r.profiles r.current;
                current = some (new_profile (value_of (atoi m)));
              }))
              (read_detail r.profiles r.current (trim_space raw)))
    on_header none = read_detail-Adds r.profiles r.current (trim_space raw) h
    on_header (some m) = (
      (value_of (atoi m), refl),
      ids-some (flushed r.profiles r.current) (new_profile (value_of (atoi m))) (value_of (atoi m))
          refl,
    )

read_lines-Adds :
    (lines : List Text) (r : Reader)
    → HasCurrentId r.current
    → Adds r (announced lines) (read_lines r lines)
unfolding read_lines
read_lines-Adds [] r h = (h, sym (append-nil (ids r)))
read_lines-Adds (raw ∷ rest) r h =
    on_line (read_line r raw) (read_line-Adds r raw h) λ r' c. read_lines-Adds rest r' c
  where
    add :
        (r' : Reader) (m : Result Error Reader)
        → ids r' ≡ ids r ++ announced_by raw
        → Adds r' (announced rest) m
        → Adds r (announced_by raw ++ announced rest) m
    add r' (err e) q k = tt
    add r' (ok r'') q (c, k) = (
      c,
      k
          ∙ ap (λ l. l ++ announced rest) q
          ∙ append_assoc (ids r) (announced_by raw) (announced rest),
    )

    on_line :
        (m : Result Error Reader)
        → Adds r (announced_by raw) m
        → ((r' : Reader) → HasCurrentId r'.current → Adds r' (announced rest) (read_lines r' rest))
        → Adds r (announced_by raw ++ announced rest) (do r' ← m; read_lines r' rest)
    on_line (err e) k later = tt
    on_line (ok r') (c, q) later = add r' (read_lines r' rest) q (later r' c)

-- If a listing of ONU profiles is read with no error and holds no text "not found", the ids of the
-- profiles that are returned are the numbers of the lines "Id: …", all of them and in their order,
-- whatever stands between those lines. A listing that holds "not found" gives no profiles.
pub parse_onu_profiles_ids :
    (output : Text) (ps : List OnuHardwareProfile)
    → parse_onu_profiles output ≡ ok ps
    → let clean = sanitize_profile_output output in
      map id_of ps ≡ (if contains clean (codes "not found") then [] else announced (split clean 10))
unfolding parse_onu_profiles
parse_onu_profiles_ids output ps h =
    elim (Bool-cases (contains (sanitize_profile_output output) (codes "not found"))) [
      | inl e ↦ rw e (ap (map id_of) (sym (ok-injective [] ps (rw e at h))))
      | inr e ↦
          let lines = split (sanitize_profile_output output) 10 in
          let (r, read, last) =
            >>=-eq-ok (read_lines start lines) (λ r. ok (flushed r.profiles r.current))
              (rw e at h) in
          rw e (
            ap (map id_of) (sym (ok-injective _ ps last))
            ∙ (rw read at (read_lines-Adds lines start tt)).1)
    ]
