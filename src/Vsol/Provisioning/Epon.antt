-- ===== src/Vsol/Provisioning/Epon.antt =====
-- `BulkProvision` on an OLT whose network is not a GPON.
use nano_southbound.Prelude.{
  ◌≡◌, ap, ◌∙◌, true, false, Option, some, List, [], ◌∷◌, ◌++◌, length, map, suc, ◌+◌, arith,
  append_assoc, append-nil,
}
use nano_southbound.Go.Text.{Text, codes}
use nano_southbound.Go.Map.{Map}
use nano_southbound.Go.Result.{ok}
use nano_southbound.Types.DriverV2.{BulkProvisionOp, BulkOpResult, BulkResult}
use nano_southbound.Vsol.Bandwidth.{Caching}
use nano_southbound.Vsol.Provisioning.{
  CommandLine, is_gpon, op_result, judge, first_error, bulk_commands, bulk_op, bulk_ops, count,
  bulk_provision, empty_result, configured, prefetched,
}
use nano_southbound.Vsol.Provisioning.Accounting.{Entered}

module _ {S : Type 0} (c : CommandLine S) (metadata : Option (Map Text)) where
  -- A batch of no commands does nothing.
  abbrev pub Idle : Type 0
  Idle = (s : S) → c.exec_commands [] s ≡ (ok [], s)

  abbrev pub all_done : List BulkProvisionOp → List BulkOpResult
  all_done ops = map (λ op. op_result op true []) ops

  bulk_op-idle :
      (op : BulkProvisionOp) (sc : Caching S)
      → Idle
      → is_gpon metadata ≡ false
      → bulk_op (some c) metadata c op sc ≡ (op_result op true [], sc)
  unfolding bulk_op bulk_commands judge first_error
  bulk_op-idle op sc idle epon = rw (epon, idle sc.0)

  bulk_ops-idle :
      (ops : List BulkProvisionOp) (counts : BulkResult) (sc : Caching S)
      → Idle
      → is_gpon metadata ≡ false
      → bulk_ops (some c) metadata c ops counts sc ≡ (
        record {
          succeeded = counts.succeeded + length ops;
          failed = counts.failed;
          results = counts.results ++ all_done ops;
        },
        sc,
      )
  unfolding bulk_ops
  bulk_ops-idle [] counts sc idle epon =
      let none_more : (counts.succeeded + 0) ≡ counts.succeeded = omega arith in
      rw (append-nil counts.results, none_more)
  bulk_ops-idle (op ∷ ops) counts sc idle epon =
      let one_more : (suc counts.succeeded + length ops) ≡ (counts.succeeded + suc (length ops)) =
        omega arith in
      let next = record counts {
        succeeded = suc counts.succeeded;
        results = counts.results ++ op_result op true [] ∷ [];
      } in
      ap
        (λ step.
          bulk_ops (some c) metadata c ops
            (count step.0 (record counts { results = counts.results ++ step.0 ∷ [] })) step.1)
        (bulk_op-idle op sc idle epon)
      ∙ (bulk_ops-idle ops next sc idle epon
          ∙ rw (one_more, append_assoc counts.results (op_result op true [] ∷ []) (all_done ops)))

  -- Where the network is not a GPON and the executor answers a batch of no commands with no outputs,
  -- BulkProvision reports every operation as a success and sends no command for any: once the
  -- configuration mode is entered, all it does is to commit and to leave it.
  pub bulk_provision-epon :
      (ops : List BulkProvisionOp) (s u : S)
      → Entered c metadata ops s u
      → Idle
      → is_gpon metadata ≡ false
      → bulk_provision (some c) metadata ops s ≡ (
        ok (record { succeeded = length ops; failed = 0; results = all_done ops }),
        (c.exec_command (codes "end") (c.exec_command (codes "commit") u).1).1,
      )
  unfolding bulk_provision
  bulk_provision-epon ops s u (out, entered) idle epon =
      let none_before : (0 + length ops) ≡ length ops = omega arith in
      let cache = (prefetched (some c) metadata c ops s).1 in
      ap (configured (some c) metadata c ops cache) entered
      ∙ ap
          (λ r.
            (ok r.0, (c.exec_command (codes "end") (c.exec_command (codes "commit") r.1.0).1).1))
          (bulk_ops-idle ops empty_result (u, cache) idle epon)
      ∙ ap
          (λ n. (
            ok (record { succeeded = n; failed = 0; results = all_done ops }),
            (c.exec_command (codes "end") (c.exec_command (codes "commit") u).1).1,
          ))
          none_before
