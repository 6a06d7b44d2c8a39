-- ===== src/Vsol/NextId.antt =====
-- The id that a new DBA or traffic profile gets: the loop of `CreateDBAProfile` and
-- `CreateTrafficProfile` over the ids that are in use.
use nano_southbound.Prelude.{
  ◌<ℤ◌, List, [], ◌∷◌, arith, if◌then◌else◌, All, ℤ, pos, ◌+ℤ◌, ◌≤ℤ◌, ltb_ℤ, eqb_ℤ, max_int,
  min_int,
}

-- v + 1 of an `int`, which wraps around
abbrev pub succ_int : ℤ → ℤ
succ_int v = if eqb_ℤ v max_int then min_int else v +ℤ pos 1

-- One round of the loop
abbrev advance : ℤ → ℤ → ℤ
advance id next = if ltb_ℤ id next then next else succ_int id

next_id_from : ℤ → List ℤ → ℤ
next_id_from next [] = next
next_id_from next (id ∷ ids) = next_id_from (advance id next) ids

-- The search starts at 2, since 1 is the default profile.
unfoldable pub next_id : List ℤ → ℤ
unfolding next_id_from
next_id ids = next_id_from (pos 2) ids

advance_bounds : (id next : ℤ) → id <ℤ max_int → (next ≤ℤ advance id next) × (id <ℤ advance id next)
advance_bounds id next h = (ground arith, ground arith)

next_id_from-Fresh :
    (next : ℤ) (ids : List ℤ)
    → All (λ id. id <ℤ max_int) ids
    → (next ≤ℤ next_id_from next ids) × All (λ id. id <ℤ next_id_from next ids) ids
unfolding next_id_from
next_id_from-Fresh next [] h = (omega arith, tt)
next_id_from-Fresh next (id ∷ ids) h =
    let (kept, above) = advance_bounds id next h.0 in
    let (later, rest) = next_id_from-Fresh (advance id next) ids h.1 in
    (grow next (advance id next) _ kept later, (climb id (advance id next) _ above later, rest))
  where
    grow : (a b c : ℤ) → a ≤ℤ b → b ≤ℤ c → a ≤ℤ c
    grow a b c p q = omega arith

    climb : (a b c : ℤ) → a <ℤ b → b ≤ℤ c → a <ℤ c
    climb a b c p q = omega arith

-- The new id is at least 2 and above every id in use, as long as none of them is the largest `int`.
pub next_id-Fresh :
    (ids : List ℤ)
    → All (λ id. id <ℤ max_int) ids
    → (pos 2 ≤ℤ next_id ids) × All (λ id. id <ℤ next_id ids) ids
unfolding next_id
next_id-Fresh ids h = next_id_from-Fresh (pos 2) ids h
