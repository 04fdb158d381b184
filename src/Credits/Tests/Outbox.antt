-- ===== src/Credits/Tests/Outbox.antt =====
-- The laws of the outbox at one call.
use ai_credits.Prelude.{[], codes, none, refl, str_dec, ℕ_discrete, ◌∷◌, ◌≡◌}
use ai_credits.Credits.Accounts.{
  add_balance, debit_balance, insert_transaction, key_used, rows_covering, transaction_id_used,
  upsert_balance,
}
use ai_credits.Credits.Db.{in_tx}
use ai_credits.Credits.Errors.{ok}
use ai_credits.Credits.Ledger.{adjust, adjust_rows, grant}
use ai_credits.Credits.Pricing.{
  Pricer, add_line, add_lines, cost, credits, credits_from_microunits, default_models, find_model,
  int_div_ceil,
}
use ai_credits.Credits.Reservation.{debit_reservation, reserve, reserve_rows}
use ai_credits.Credits.Reservation.Finalize.{
  finalize, finalize_rows, load_outcome, outcome, release, settle, write_return,
}
use ai_credits.Credits.Reservation.Rows.{
  find_request, find_reservation, insert_reservation, rows_reserved, update_reserved,
}
use ai_credits.Credits.Settlement.{
  OutboxEnv, Store, find_outbox, outbox_row, reservation_by_id, settle_via_outbox,
}
use ai_credits.Credits.Settlement.Laws.{outbox-IsSound}
use ai_credits.Credits.Settlement.Pass.{process_settlement_outbox}
use ai_credits.Credits.Sound.{IsSound}
use ai_credits.Credits.System.Laws.{Reach-IsSafe, start-IsSafe}
use ai_credits.Credits.Tests.{ann, env3, reserved, reserved_reach}
use ai_credits.Credits.Tests.Trail.{call_usage}
use ai_credits.Credits.Validate.{is_blank, require_identifier, require_identifiers}
use ai_credits.Prelude.Int.{neg, pos, ◌*ℤ◌, ◌+ℤ◌, ◌-ℤ◌}
use ai_credits.Prelude.Int64.{div64, wrap}

abbrev waiting : Store
waiting = record {
  db = reserved.db;
  usage = [];
  outbox =
      outbox_row (pos 200) (codes "q1") ann (codes "r1") (codes "openai") (codes "gpt-4o") ∷ [];
}

abbrev quiet : OutboxEnv
quiet = record {
  read = none;
  lookup = none;
  lookup_again = none;
  inner = env3;
  each = λ n. env3;
  ended = λ n. none;
  write = none;
  now = pos 900;
}

abbrev table : Pricer
table = record { version = codes "v1"; microunits_per_credit = pos 1000; models = default_models }

abbrev done_store : Store
done_store = (settle_via_outbox table quiet (codes "q1") call_usage waiting).1

outbox_run : settle_via_outbox table quiet (codes "q1") call_usage waiting ≡ (ok tt, done_store)
unfolding grant adjust adjust_rows in_tx key_used insert_transaction transaction_id_used
    upsert_balance str_dec ℕ_discrete require_identifiers require_identifier is_blank ◌-ℤ◌ ◌+ℤ◌ neg
    reserve reserve_rows debit_reservation rows_covering debit_balance insert_reservation
    find_reservation find_request settle release finalize load_outcome outcome finalize_rows
    write_return rows_reserved update_reserved add_balance settle_via_outbox reservation_by_id
    find_outbox credits cost find_model add_lines add_line wrap ◌*ℤ◌ div64 int_div_ceil
    credits_from_microunits
outbox_run = refl

outbox-IsSound_example :
    IsSound (settle_via_outbox table quiet (codes "q1") call_usage waiting).1.db
    × IsSound (process_settlement_outbox none (pos 0) (λ n. quiet) (λ n. pos 9000) waiting).1.db
outbox-IsSound_example =
    outbox-IsSound table quiet (codes "q1") call_usage none (pos 0) (λ n. quiet) (λ n. pos 9000)
      waiting (Reach-IsSafe start-IsSafe reserved_reach).sound
