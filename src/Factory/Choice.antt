-- ===== src/Factory/Choice.antt =====
-- When `NewDriver` returns a driver.
use nano_southbound.Prelude.{
  ◌≡◌, ◌↔◌, ◌≢◌, ◌⊎◌, inl, inr, refl, sym, true, false, Option, some, [], ◌∷◌, arith, All,
  Bool-cases, Option-cases,
}
use nano_southbound.Go.Text.{Text, text_eq, text_eq_iff}
use nano_southbound.Go.Map.{Map, lookup}
use nano_southbound.Go.Result.{ok, err}
use nano_southbound.Types.Equipment.{EquipmentConfig, vendor_mock}
use nano_southbound.Factory.{
  VendorCapabilities, capability_matrix, Constructors, names, base_driver, adapter, new_driver,
  protocol_or_primary, driver_for,
}

-- What holds of every entry of a map holds of each that is found.
lookup-All :
    {V : Type 0} (P : Text → V → Type 0) (key : Text) (m : Map V) (v : V)
    → All (λ e. P e.0 e.1) m
    → lookup key m ≡ some v
    → P key v
unfolding lookup
lookup-All P key [] v h found = cc
lookup-All P key ((other, w) ∷ m) v (here, rest) found = elim (Bool-cases (text_eq other key)) [
  | inl same ↦
      let e = (text_eq_iff other key).0 same in
      let q : w ≡ v = ground arith in rw (sym q, sym e) here
  | inr different ↦ lookup-All P key m v rest (ground arith)
]

module _ {B : Type 0} (make : Constructors B) (config : Option EquipmentConfig) where
  abbrev Adapted : Text → Type 0
  Adapted vendor =
      text_eq vendor vendor_mock ≡ false
      → (base : B) → (d : B) × (adapter make config vendor base ≡ ok d)

  adapted : All (λ e. Adapted e.0) capability_matrix
  unfolding capability_matrix adapter text_eq
  adapted = (
    λ h b. (_, refl),
    (
      λ h b. (_, refl),
      (
        λ h b. (_, refl),
        (
          λ h b. (_, refl),
          (
            λ h b. (_, refl),
            (
              λ h b. (_, refl),
              (
                λ h b. (_, refl),
                (
                  λ h b. (_, refl),
                  (
                    λ h b. (_, refl),
                    (λ h b. (_, refl), (λ h b. (_, refl), (λ h b. (_, refl), (λ h b. cc h, tt)))),
                  ),
                ),
              ),
            ),
          ),
        ),
      ),
    ),
  )

  -- The ways in which a vendor and a protocol that was resolved give a driver
  abbrev pub Available : Text → Text → Type 0
  Available vendor protocol =
      ((vendor ≡ vendor_mock) × ((d : B) × (make.mock_driver config ≡ ok d)))
      ⊎ ((vendor ≢ vendor_mock)
          × ((base : B) × (base_driver make config protocol ≡ some (ok base))))

  driver_for-Available :
      (vendor protocol : Text) (d : B)
      → driver_for make config vendor protocol ≡ ok d
      → Available vendor protocol
  driver_for-Available vendor protocol d h = elim (Bool-cases (text_eq vendor vendor_mock)) [
    | inl is_mock ↦ inl ((text_eq_iff vendor vendor_mock).0 is_mock, (d, ground arith))
    | inr other ↦ inr (
      λ e. cc ((text_eq_iff vendor vendor_mock).1 e, other),
      elim (Option-cases (base_driver make config protocol)) [
        | inl missing ↦ absurd (ground arith)
        | inr (err m, failure) ↦ absurd (ground arith)
        | inr (ok base, made) ↦ (base, made)
      ],
    )
  ]

  Available-driver_for :
      (vendor protocol : Text)
      → Adapted vendor
      → Available vendor protocol
      → (d : B) × (driver_for make config vendor protocol ≡ ok d)
  Available-driver_for vendor protocol wrapped (inl (is_mock, (d, made))) =
      (d, ground (arith, text_eq_iff vendor vendor_mock))
  Available-driver_for vendor protocol wrapped (inr (other, (base, made))) =
      let other_text : text_eq vendor vendor_mock ≡ false =
        ground (arith, text_eq_iff vendor vendor_mock) in
      let (d, e) = wrapped other_text base in (d, ground arith)

  abbrev Chosen : Text → Text → Type 0
  Chosen vendor asked =
      (caps : VendorCapabilities) × (lookup vendor capability_matrix ≡ some caps)
      × (names (protocol_or_primary caps asked) caps.supported_protocols ≡ true)
      × Available vendor (protocol_or_primary caps asked)

  new_driver-Chosen :
      (vendor asked : Text) (d : B)
      → new_driver make config vendor asked ≡ ok d
      → Chosen vendor asked
  unfolding new_driver
  new_driver-Chosen vendor asked d h = elim (Option-cases (lookup vendor capability_matrix)) [
    | inl missing ↦ absurd (ground arith)
    | inr (caps, listed) ↦
        let protocol = protocol_or_primary caps asked in
        elim (Bool-cases (names protocol caps.supported_protocols)) [
          | inr refused ↦ absurd (ground arith)
          | inl supported ↦
              (caps, listed, supported, driver_for-Available vendor protocol d (ground arith))
        ]
  ]

  Chosen-new_driver :
      (vendor asked : Text)
      → Chosen vendor asked
      → (d : B) × (new_driver make config vendor asked ≡ ok d)
  unfolding new_driver
  Chosen-new_driver vendor asked (caps, listed, supported, available) =
      let wrapped = lookup-All (λ v c. Adapted v) vendor capability_matrix caps adapted listed in
      let (d, e) = Available-driver_for vendor (protocol_or_primary caps asked) wrapped available in
      (d, ground arith)

  -- `NewDriver` returns a driver exactly if the vendor is one of the matrix, the protocol, which is the
  -- vendor's primary one if none is asked for, is among those that it supports, and the constructor
  -- that is chosen succeeds: that of the mock driver for the mock vendor whatever the protocol, else that of the
  -- protocol, which is NETCONF, gNMI, CLI or SNMP. No vendor of the matrix lacks an adapter.
  pub new_driver-Available :
      (vendor asked : Text)
      → ((d : B) × (new_driver make config vendor asked ≡ ok d)) ↔ Chosen vendor asked
  new_driver-Available vendor asked =
      (λ (d, h). new_driver-Chosen vendor asked d h, Chosen-new_driver vendor asked)
