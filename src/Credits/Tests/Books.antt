-- ===== src/Credits/Tests/Books.antt =====
-- The laws of the books at the small tables.
use ai_credits.Prelude.{arith, codes, false, refl, some, true, ◌↔◌, ◌≡◌, ◌≢◌}
use ai_credits.Credits.Accounts.{balance_of, key_used, ledger_total, transaction_id_used}
use ai_credits.Credits.Db.{Db, Status, calm, in_tx}
use ai_credits.Credits.Errors.{Error, duplicate_grant, err, grant_amount, ok}
use ai_credits.Credits.Ledger.{grant, grant_tx, refund, refund_tx}
use ai_credits.Credits.Ledger.Caller.{grant_tx_lem}
use ai_credits.Credits.Ledger.Outcome.{IsEntry, grant_lem}
use ai_credits.Credits.Reconcile.{all_users, detect_drift, mismatches}
use ai_credits.Credits.Reconcile.Laws.{is_reported, mismatches_exact}
use ai_credits.Credits.Sound.{HasColumns, IsSound, empty_db, reference_sum}
use ai_credits.Credits.Sound.Keep.{Appends}
use ai_credits.Credits.System.{Reach, here, next, reserves, settles, start}
use ai_credits.Credits.System.Books.{
  balance_is_ledger_sum, grant_once, ledger_append_only, reservation_is_accounted,
}
use ai_credits.Credits.System.Laws.{Reach-IsSafe, start-IsSafe}
use ai_credits.Credits.Tests.{
  ann, bob, env1, env2, env3, env4, granted, granted_reach, held, held_settled, key, request,
  reserved, settled, settled_reach, settled_step, src, why,
}
use ai_credits.Credits.Tests.Runs.{found_settled_run, grant_run}
use ai_credits.Credits.Validate.{is_blank}
use ai_credits.Credits.Validate.Laws.{IsIdentifier}
use ai_credits.Prelude.Int.{neg, pos, ◌≤ℤ◌}

granted-IsSound : IsSound granted.db
granted-IsSound = (Reach-IsSafe start-IsSafe granted_reach).sound

balance_is_ledger_sum_example :
    balance_of ann settled.db.accounts ≡ ledger_total ann settled.db.transactions
balance_is_ledger_sum_example = balance_is_ledger_sum settled ann settled_reach

reservation_is_accounted_example :
    (reference_sum (codes "r1") settled.db.transactions ≡ neg (pos 45))
    × HasColumns Status.captured held_settled
reservation_is_accounted_example =
    reservation_is_accounted settled (codes "r1") held_settled settled_reach found_settled_run

ledger_append_only_example : Appends reserved.db settled.db
ledger_append_only_example = ledger_append_only reserved settled settled_step

report_run :
    detect_drift env1 settled.db
    ≡ ok (mismatches settled.db (all_users settled.db.accounts settled.db.transactions))
unfolding detect_drift
report_run = refl

after_grant : Reach granted settled
after_grant =
    next (next here (reserves env2 ann request (pos 30))) (settles env3 (some held) (pos 45))

grant_once_example :
    ((e : Error) × (grant env4 bob (pos 7) src why key settled.db ≡ (err e, settled.db)))
    × ((e : Error) × (refund env4 bob (pos 7) src why key settled.db ≡ (err e, settled.db)))
grant_once_example =
    grant_once start settled env1 env4 ann bob (pos 100) (pos 7) src src why why key granted.db
      grant_run after_grant

unused_run : transaction_id_used (codes "t1") empty_db.transactions ≡ false
unfolding transaction_id_used
unused_run = refl

short_texts : IsIdentifier ann × IsIdentifier src × IsIdentifier why × IsIdentifier key
unfolding is_blank
short_texts = ((refl, omega arith), (refl, omega arith), (refl, omega arith), (refl, omega arith))

grant_lem_example :
    (pos 1 ≤ℤ pos 100
      → key_used key empty_db.transactions ≡ false
      → (db' : Db) × (grant (calm (pos 100) (codes "t1")) ann (pos 100) src why key empty_db
          ≡ (ok tt, db'))
        × IsEntry ann (pos 100) key empty_db db')
    × (pos 1 ≤ℤ pos 100
        → key_used key empty_db.transactions ≡ true
        → grant (calm (pos 100) (codes "t1")) ann (pos 100) src why key empty_db
          ≡ (err duplicate_grant, empty_db))
    × (pos 100 ≤ℤ pos 0
        → grant (calm (pos 100) (codes "t1")) ann (pos 100) src why key empty_db
          ≡ (err grant_amount, empty_db))
grant_lem_example =
    grant_lem (pos 100) (codes "t1") ann (pos 100) src why key empty_db unused_run short_texts.0
      short_texts.1 short_texts.2 short_texts.3

grant_tx_lem_example :
    (in_tx env4 (grant_tx env4 bob (pos 7) src why key) granted.db
      ≡ grant env4 bob (pos 7) src why key granted.db)
    × (in_tx env4 (refund_tx env4 bob (pos 7) src why key) granted.db
        ≡ refund env4 bob (pos 7) src why key granted.db)
grant_tx_lem_example = grant_tx_lem env4 bob (pos 7) src why key granted.db refl

mismatches_exact_example :
    (is_reported ann (mismatches settled.db (all_users settled.db.accounts settled.db.transactions))
      ≡ true)
    ↔ (balance_of ann settled.db.accounts ≢ ledger_total ann settled.db.transactions)
mismatches_exact_example = mismatches_exact settled.db ann
