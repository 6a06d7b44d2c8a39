-- ===== src/Vsol/LineProfile/Listing/Linked.antt =====
-- What is read of a listing is linked: each part has the id of what it stands in, and each profile
-- has an id.
use nano_southbound.Prelude.{
  ◌≡◌, ◌≢◌, ◌⊎◌, inl, inr, refl, ◌∙◌, Option, none, some, List, [], ◌∷◌, ◌++◌, All, All-append, ℤ,
  pos, eqb_ℤ, eqb_ℤ_iff, Bool-cases,
}
use nano_southbound.Types.LineProfile.{
  LineProfileService, LineProfileServicePort, LineProfileGemport, LineProfileTcont, LineProfile,
}
use nano_southbound.Vsol.LineProfile.{own_or}
use nano_southbound.Vsol.LineProfile.Listing.{
  flush_current, add_gemport_to, add_part_to, GemportPointer, nil, last_of_tcont, loose, Reader,
  flush, update_last, with_current, add_tcont, add_service, add_service_port, append_gemport,
  update_gemport, append_service, append_service_port, new_profile, is_complete,
}
use nano_southbound.Vsol.LineProfile.Listing.Pointers.{
  Held, LastIs, update_last-All, update_last-LastIs,
}

-- An id that is given, or the zero that what it stands in has too
abbrev pub IsLinked : ℤ → ℤ → Type 0
IsLinked outer own = (own ≢ pos 0) ⊎ (outer ≡ pos 0)

abbrev pub IsLinkedGemport : ℤ → LineProfileGemport → Type 0
IsLinkedGemport tcont g =
    IsLinked tcont g.tcont_id
    × All (Held (λ s. IsLinked g.id s.gemport_id)) g.services
    × All (Held (λ s. IsLinked g.id s.gemport_id)) g.service_ports

abbrev pub IsLinkedTcont : LineProfileTcont → Type 0
IsLinkedTcont t = All (Held (IsLinkedGemport t.id)) t.gemports

-- The profile has an id, none of its pointers is nil, and all parts of its T-CONTs are linked.
abbrev pub IsLinkedProfile : LineProfile → Type 0
IsLinkedProfile p = (p.id ≢ none) × All (Held IsLinkedTcont) p.tconts

-- What the pointers of the loop point at
abbrev pub PointsAtTcont : Option ℤ → List (Option LineProfileTcont) → Type 0
PointsAtTcont none ts = Unit
PointsAtTcont (some i) ts = LastIs (λ t. t.id ≡ i) ts

abbrev pub PointsAtGemport : GemportPointer → List (Option LineProfileTcont) → Type 0
PointsAtGemport nil ts = Unit
PointsAtGemport (loose i) ts = Unit
PointsAtGemport (last_of_tcont i) ts = LastIs (λ t. LastIs (λ g. g.id ≡ i) t.gemports) ts

abbrev pub CurrentInv : Option LineProfile → Option ℤ → GemportPointer → Type 0
CurrentInv none t g = (t ≡ none) × (g ≡ nil)
CurrentInv (some p) t g = IsLinkedProfile p × PointsAtTcont t p.tconts × PointsAtGemport g p.tconts

abbrev pub ReaderInv : Reader → Type 0
ReaderInv r = All IsLinkedProfile r.profiles × CurrentInv r.current r.tcont r.gemport

own_or-IsLinked : (own outer : ℤ) → IsLinked outer (own_or own outer)
own_or-IsLinked own outer = elim (Bool-cases (eqb_ℤ own (pos 0))) [
  | inr given ↦ rw given (inl (λ e. cc ((eqb_ℤ_iff own (pos 0)).1 e, given)))
  | inl left_out ↦ rw left_out (elim (Bool-cases (eqb_ℤ outer (pos 0))) [
    | inl e ↦ inr ((eqb_ℤ_iff outer (pos 0)).0 e)
    | inr e ↦ inl (λ q. cc ((eqb_ℤ_iff outer (pos 0)).1 q, e))
  ])
]

LastIs-append :
    {A : Type 0} (Q : A → Type 0) (xs : List (Option A)) (a : A)
    → Q a
    → LastIs Q (xs ++ some a ∷ [])
LastIs-append Q [] a q = q
LastIs-append Q (x ∷ []) a q = q
LastIs-append Q (x ∷ y ∷ xs) a q = LastIs-append Q (y ∷ xs) a q

All-snoc :
    {A : Type 0} (P : A → Type 0) (xs : List A) (a : A) → All P xs → P a → All P (xs ++ a ∷ [])
All-snoc P xs a h k = All-append P xs (a ∷ []) h (k, tt)

-- After `flush` all profiles are linked, and all pointers are nil.
abbrev pub IsFlushed : Reader → Type 0
IsFlushed r = All IsLinkedProfile r.profiles × (r.tcont ≡ none) × (r.gemport ≡ nil)

flush_current-IsFlushed :
    (o : Option LineProfile) (r : Reader)
    → All IsLinkedProfile r.profiles
    → CurrentInv o r.tcont r.gemport
    → IsFlushed (flush_current o r)
flush_current-IsFlushed none r h (k, l) = (h, k, l)
flush_current-IsFlushed (some p) r h k = elim (Bool-cases (is_complete p)) [
  | inl c ↦ rw c (All-snoc IsLinkedProfile r.profiles p h k.0, refl, refl)
  | inr c ↦ rw c (h, refl, refl)
]

pub flush-IsFlushed : (r : Reader) → ReaderInv r → IsFlushed (flush r)
unfolding flush
flush-IsFlushed r h = flush_current-IsFlushed r.current r h.0 h.1

pub with_new_profile-ReaderInv :
    (r : Reader) (id : ℤ) → IsFlushed r → ReaderInv (with_current r (new_profile id))
with_new_profile-ReaderInv r id (h, t, g) = (h, (((λ e. cc), tt), rw t tt, rw g tt))

pub add_tcont-ReaderInv :
    (r : Reader) (p : LineProfile) (t : LineProfileTcont)
    → All IsLinkedProfile r.profiles
    → IsLinkedProfile p
    → t.gemports ≡ []
    → ReaderInv (add_tcont r p t)
unfolding add_tcont
add_tcont-ReaderInv r p t h (named, linked) e = (
  h,
  (
    (named, All-snoc (Held IsLinkedTcont) p.tconts (some t) linked (rw e tt)),
    LastIs-append (λ u. u.id ≡ t.id) p.tconts t refl,
    tt,
  ),
)

-- The changes that the loop makes to the last T-CONT
module _ (f : LineProfileTcont → LineProfileTcont) (p : LineProfile)
    (same_id : (t : LineProfileTcont) → (f t).id ≡ t.id) where
  update_last-id :
      (o : Option ℤ) → PointsAtTcont o p.tconts → PointsAtTcont o (update_last f p.tconts)
  update_last-id none h = tt
  update_last-id (some j) h =
      update_last-LastIs (λ t. t.id ≡ j) (λ t. t.id ≡ j) f p.tconts (λ t e. same_id t ∙ e) h

pub add_gemport_to-ReaderInv :
    (o : Option ℤ) (r : Reader) (p : LineProfile) (g : LineProfileGemport)
    → All IsLinkedProfile r.profiles
    → IsLinkedProfile p
    → PointsAtTcont o p.tconts
    → r.current ≡ some p
    → r.tcont ≡ o
    → (g.services ≡ []) × (g.service_ports ≡ [])
    → ReaderInv (add_gemport_to o r p g)
add_gemport_to-ReaderInv none r p g h k t e f s = (h, rw (e, f) (k, tt, tt))
add_gemport_to-ReaderInv (some i) r p g h (given, linked) t e f (no_services, no_ports) = (
  h,
  rw f (
    (
      given,
      update_last-All IsLinkedTcont (λ u. u.id ≡ i) (append_gemport g') p.tconts keep linked t,
    ),
    update_last-id (append_gemport g') p (λ u. refl) (some i) t,
    update_last-LastIs (λ u. u.id ≡ i) (λ u. LastIs (λ x. x.id ≡ g.id) u.gemports)
        (append_gemport g') p.tconts (λ u q. LastIs-append (λ x. x.id ≡ g.id) u.gemports g' refl) t,
  ),
)
  where
    g' : LineProfileGemport
    g' = record g { tcont_id = own_or g.tcont_id i }

    keep : (u : LineProfileTcont) → IsLinkedTcont u → u.id ≡ i → IsLinkedTcont (append_gemport g' u)
    keep u l q =
        All-snoc (Held (IsLinkedGemport u.id)) u.gemports (some g') l
          (rw q (own_or-IsLinked g.tcont_id i, rw no_services tt, rw no_ports tt))

module _ (append : ℤ → LineProfileGemport → LineProfileGemport)
    (same_id : (i : ℤ) (g : LineProfileGemport) → (append i g).id ≡ g.id)
    (keep : (i t : ℤ) (g : LineProfileGemport)
      → IsLinkedGemport t g
      → g.id ≡ i
      → IsLinkedGemport t (append i g)) where
  add_part_to-ReaderInv :
      (ptr : GemportPointer) (r : Reader) (p : LineProfile)
      → All IsLinkedProfile r.profiles
      → CurrentInv (some p) r.tcont ptr
      → r.current ≡ some p
      → r.gemport ≡ ptr
      → ReaderInv (add_part_to ptr append r p)
  add_part_to-ReaderInv nil r p h k e f = (h, rw (e, f) k)
  add_part_to-ReaderInv (loose i) r p h k e f = (h, rw (e, f) k)
  add_part_to-ReaderInv (last_of_tcont i) r p h ((given, linked), t, g) e f = (
    h,
    rw f (
      (
        given,
        update_last-All IsLinkedTcont (λ u. LastIs (λ x. x.id ≡ i) u.gemports)
            (update_gemport (append i)) p.tconts
            (λ u l q.
              update_last-All (IsLinkedGemport u.id) (λ x. x.id ≡ i) (append i) u.gemports
                (keep i u.id) l q)
            linked g,
      ),
      update_last-id (update_gemport (append i)) p (λ u. refl) r.tcont t,
      update_last-LastIs (λ u. LastIs (λ x. x.id ≡ i) u.gemports)
          (λ u. LastIs (λ x. x.id ≡ i) u.gemports) (update_gemport (append i)) p.tconts
          (λ u q.
            update_last-LastIs (λ x. x.id ≡ i) (λ x. x.id ≡ i) (append i) u.gemports
              (λ x s. same_id i x ∙ s) q)
          g,
    ),
  )

pub add_service-ReaderInv :
    (r : Reader) (p : LineProfile) (s : LineProfileService)
    → ReaderInv r
    → r.current ≡ some p
    → ReaderInv (add_service r p s)
unfolding add_service
add_service-ReaderInv r p s (h, k) e =
    add_part_to-ReaderInv (λ id. append_service (record s { gemport_id = own_or s.gemport_id id }))
      (λ i g. refl)
      (λ i t g (tc, ss, ps) q. (
        tc,
        All-snoc (Held (λ x. IsLinked g.id x.gemport_id)) g.services _ ss
            (rw q (own_or-IsLinked s.gemport_id i)),
        ps,
      ))
      r.gemport r p h (rw e at k) e refl

pub add_service_port-ReaderInv :
    (r : Reader) (p : LineProfile) (s : LineProfileServicePort)
    → ReaderInv r
    → r.current ≡ some p
    → ReaderInv (add_service_port r p s)
unfolding add_service_port
add_service_port-ReaderInv r p s (h, k) e =
    add_part_to-ReaderInv
      (λ id. append_service_port (record s { gemport_id = own_or s.gemport_id id })) (λ i g. refl)
      (λ i t g (tc, ss, ps) q. (
        tc,
        ss,
        All-snoc (Held (λ x. IsLinked g.id x.gemport_id)) g.service_ports _ ps
            (rw q (own_or-IsLinked s.gemport_id i)),
      ))
      r.gemport r p h (rw e at k) e refl
