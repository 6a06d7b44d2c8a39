-- ===== src/Drivers/Cli/Connection.antt =====
-- When the driver is connected.
use nano_southbound.Prelude.{
  ◌≡◌, ◌⊎◌, inl, inr, refl, ℕ, true, false, Option, none, some, arith, [], ◌≢◌, ◌++◌, Option-cases,
}
use nano_southbound.Go.Text.{Text, codes}
use nano_southbound.Go.Number.{itoa}
use nano_southbound.Go.Result.{ok, err, Check, Result-cases}
use nano_southbound.Types.Equipment.{EquipmentConfig}
use nano_southbound.Drivers.Cli.Driver.{
  Network, Driver, connect, connect_with, spawned, opened, should_disable_pager, connect,
  disconnect, is_connected, exec_command,
}

module _ {D : Type 0} (net : Network D) (fuel : ℕ) where
  -- A connection that is opened, or an error that leaves no connection, or one that leaves what there was
  abbrev pub Outcome : Driver → Check Text → Driver → Type 0
  Outcome driver r left =
      ((r ≡ ok tt) × (is_connected left ≡ true))
      ⊎ ((r ≢ ok tt) × ((is_connected left ≡ false) ⊎ (is_connected left ≡ is_connected driver)))

  opened-Outcome :
      (c : EquipmentConfig) (driver left : Driver) (d e : D) (r : Check Text)
      → driver.ssh_client ≡ true
      → opened net fuel c driver d ≡ some (r, (left, e))
      → ((r ≡ ok tt) × (is_connected left ≡ true)) ⊎ ((r ≢ ok tt) × (is_connected left ≡ false))
  unfolding is_connected
  opened-Outcome c driver left d e r client h =
      elim (Option-cases (spawned net fuel c (should_disable_pager driver) d)) [
        | inl stuck ↦ absurd (ground arith)
        | inr ((ok p, f), ready) ↦ inl (ground arith, ground arith)
        | inr ((err m, f), ready) ↦ inr (ground arith, ground arith)
      ]

  connect_with-Outcome :
      (c : EquipmentConfig) (driver left : Driver) (d e : D) (r : Check Text)
      → connect_with net fuel c driver d ≡ some (r, (left, e))
      → Outcome driver r left
  unfolding is_connected
  connect_with-Outcome c driver left d e r h =
      let dialled =
        net.dial (c.address ++ (codes ":" ++ itoa c.port)) c.username c.password
          c.password_auth_only d in
      elim (Result-cases dialled.0) [
        | inr (m, refused) ↦ inr (ground arith, inr (ground arith))
        | inl (u, reached) ↦
            elim (opened-Outcome c (record driver { ssh_client = true }) left dialled.1 e r refl
              (ground arith)) [ inl up ↦ inl up | inr (failure, down) ↦ inr (failure, inl down) ]
      ]

  refused_unless_connected :
      (ctx : D → Option Text) (command : Text) (driver : Driver) (d : D)
      → is_connected driver ≡ false
      → ctx d ≡ none
      → exec_command net fuel ctx command (driver, d)
        ≡ some
            (err (record { output = []; message = codes "not connected to device" }), (driver, d))
  unfolding is_connected exec_command
  refused_unless_connected ctx command driver d h alive =
      elim (Option-cases driver.expect_session) [
        | inl gone ↦ ground arith
        | inr (p, there) ↦ ground arith
      ]

  disconnect-closed :
      (driver : Driver) (d : D) → is_connected (disconnect net (driver, d)).1.0 ≡ false
  unfolding disconnect is_connected
  disconnect-closed driver d = ground arith

  connect-result :
      (c : Option EquipmentConfig) (driver left : Driver) (d e : D) (r : Check Text)
      → connect net fuel c (driver, d) ≡ some (r, (left, e))
      → Outcome driver r left
  unfolding connect is_connected
  connect-result (some c) driver left d e r h =
      connect_with-Outcome c (record driver { config = some c }) left d e r h
  connect-result none driver left d e r h = elim (Option-cases driver.config) [
    | inl missing ↦ absurd (ground arith)
    | inr (c, given) ↦ connect_with-Outcome c driver left d e r (rw given at h)
  ]

  -- After `Disconnect` the driver is not connected, whatever the device answers, and a command is refused
  -- without reaching the device unless the context has ended already. A `Connect` that returns no error leaves the driver
  -- connected; one that fails leaves it not connected, or as connected as it was.
  pub connect-Outcome :
      (driver : Driver) (d : D)
      → (is_connected (disconnect net (driver, d)).1.0 ≡ false)
        × ((ctx : D → Option Text) (command : Text)
            → ctx (disconnect net (driver, d)).1.1 ≡ none
            → exec_command net fuel ctx command (disconnect net (driver, d)).1
              ≡ some (
                err (record { output = []; message = codes "not connected to device" }),
                (disconnect net (driver, d)).1,
              ))
        × ((c : Option EquipmentConfig) (left : Driver) (e : D) (r : Check Text)
            → connect net fuel c (driver, d) ≡ some (r, (left, e))
            → Outcome driver r left)
  connect-Outcome driver d = (
    disconnect-closed driver d,
    λ ctx command alive.
        refused_unless_connected ctx command (disconnect net (driver, d)).1.0
          (disconnect net (driver, d)).1.1 (disconnect-closed driver d) alive,
    λ c left e r h. connect-result c driver left d e r h,
  )
