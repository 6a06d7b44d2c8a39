-- ===== src/Vsol/Provisioning/Accounting.antt =====
-- `BulkProvision`: what the result says of each operation, and its counts.
use nano_southbound.Prelude.{
  ℕ, suc, ◌+◌, ◌≡◌, true, false, not, ◌⊎◌, Option, some, List, [], ◌∷◌, ◌++◌, length, every,
  IsFirst, if◌then◌else◌,
}
use nano_southbound.Go.Text.{Text, codes}
use nano_southbound.Go.Map.{Map}
use nano_southbound.Go.Result.{Result, ok, err}
use nano_southbound.Types.DriverV2.{BulkProvisionOp, BulkOpResult, BulkResult}
use nano_southbound.Vsol.Bandwidth.{Caching}
use nano_southbound.Vsol.Provisioning.{CommandLine, is_error, bulk_commands, prefetched}

abbrev pub successes : List BulkOpResult → ℕ
successes [] = 0
successes (r ∷ rs) = if r.success then suc (successes rs) else successes rs

abbrev pub failures : List BulkOpResult → ℕ
failures [] = 0
failures (r ∷ rs) = if r.success then failures rs else suc (failures rs)

-- A success has outputs without an error; a failure tells the executor's error, or the first of the
-- outputs that has one.
abbrev pub Judged : Result Text (List Text) → BulkOpResult → Type 0
Judged answer r =
    ((r.success ≡ true)
      × (r.error ≡ [])
      × ((outputs : List Text) × (answer ≡ ok outputs)
          × (every (λ out. not (is_error out)) outputs ≡ true)))
    ⊎ ((r.success ≡ false)
        × ((answer ≡ err r.error)
            ⊎ ((outputs : List Text) × (answer ≡ ok outputs) × IsFirst is_error outputs r.error)))

abbrev pub Names : BulkProvisionOp → BulkOpResult → Type 0
Names op r = (r.serial ≡ op.serial) × (r.pon_port ≡ op.pon_port) × (r.onu_id ≡ op.onu_id)

module _ {S : Type 0} (c : CommandLine S) (metadata : Option (Map Text)) where
  -- The answer to the commands of an operation, and the state behind them
  abbrev pub answer_to : BulkProvisionOp → Caching S → Result Text (List Text) × Caching S
  answer_to op sc =
      let (commands, (s, cache)) = bulk_commands (some c) metadata op sc in
      let answer = c.exec_commands commands s in (answer.0, (answer.1, cache))

  -- The result of an operation names it, and is judged by the answer to the operation's commands.
  abbrev pub Reported : BulkProvisionOp → BulkOpResult → Caching S → Type 0
  Reported op r sc = Names op r × Judged (answer_to op sc).0 r

  -- One result for each operation, in their order, each from the state that the one before left
  abbrev pub AllReported : List BulkProvisionOp → List BulkOpResult → Caching S → Type 0
  AllReported [] [] sc = Unit
  AllReported (op ∷ ops) (r ∷ rs) sc = Reported op r sc × AllReported ops rs (answer_to op sc).1
  AllReported [] (r ∷ rs) sc = ⊥
  AllReported (op ∷ ops) [] sc = ⊥

  abbrev Adds : List BulkProvisionOp → BulkResult → BulkResult → Caching S → Type 0
  Adds ops counts r sc =
      (rs : List BulkOpResult) × (r.results ≡ counts.results ++ rs)
      × (r.succeeded ≡ counts.succeeded + successes rs)
      × (r.failed ≡ counts.failed + failures rs)
      × AllReported ops rs sc

  -- Where a session has entered the configuration mode
  abbrev pub Entered : List BulkProvisionOp → S → S → Type 0
  Entered ops s u =
      (out : Text) × (c.exec_command (codes "configure terminal")
          (prefetched (some c) metadata c ops s).0
        ≡ (ok out, u))

  abbrev pub Accounted : List BulkProvisionOp → BulkResult → Caching S → Type 0
  Accounted ops r sc =
      AllReported ops r.results sc
      × (r.succeeded ≡ successes r.results)
      × (r.failed ≡ failures r.results)
      × ((r.succeeded + r.failed) ≡ length ops)
