-- ===== src/Payments/Process/Explained.antt =====
-- payments/payments.go: an applied payment has a ledger row, before and after each update.
-- The event as a worker has read it agrees with its row.
use ai_credits.Prelude.{
  Bool-cases, List, Str, [], arith, inl, inr, refl, str_eq_refl, str_eq→eq, subst, sym, true, ◌∙◌,
  ◌∷◌, ◌≡◌,
}
use ai_credits.Credits.Accounts.{key_used}
use ai_credits.Credits.Db.{Db, Env, Kind, Transaction}
use ai_credits.Credits.Errors.{ok}
use ai_credits.Credits.Sound.Effect.{Effect, adjusts, unchanged}
use ai_credits.Payments.{EventStatus, PaymentEvent, ProcessStatus, Purchase}
use ai_credits.Payments.Postings.{ledger_tx, payment_key, reverse_tx}
use ai_credits.Payments.Process.{applied_event, is_event, mark_event}
use ai_credits.Payments.Process.Outcome.{Evolves}
use ai_credits.Payments.Process.Posting.{Posts, grant_payment_tx-Posts, reverse_tx-Posts}
use ai_credits.Prelude.Int.{ℤ}

abbrev pub AgreesWith : PaymentEvent → PaymentEvent → Type 0
AgreesWith e r =
    is_event e.provider e.event_id r ≡ true → (r.payment_id ≡ e.payment_id) × (r.status ≡ e.status)

abbrev pub IsSnapshot : PaymentEvent → List PaymentEvent → Type 0
IsSnapshot e [] = Unit
IsSnapshot e (r ∷ l) = AgreesWith e r × IsSnapshot e l

-- An applied payment has a ledger row under its key.
abbrev pub IsExplained : List Transaction → PaymentEvent → Type 0
IsExplained ts r =
    r.process_status ≡ ProcessStatus.applied
    → r.status ≡ EventStatus.paid
    → key_used (payment_key r.provider r.payment_id) ts ≡ true

abbrev pub AllExplained : List Transaction → List PaymentEvent → Type 0
AllExplained ts [] = Unit
AllExplained ts (r ∷ l) = IsExplained ts r × AllExplained ts l

pub Evolves-IsSnapshot :
    (e : PaymentEvent) (l l' : List PaymentEvent) → Evolves l l' → IsSnapshot e l → IsSnapshot e l'
Evolves-IsSnapshot e [] [] v h = tt
Evolves-IsSnapshot e [] (_ ∷ _) v h = absurd v
Evolves-IsSnapshot e (_ ∷ _) [] v h = absurd v
Evolves-IsSnapshot e (r ∷ l) (r' ∷ l') v h = (
  (λ q. let (p, s) = h.0 (rw (sym (v.0.0), sym (v.0.1)) q) in (v.0.3 ∙ p, v.0.4 ∙ s)),
  Evolves-IsSnapshot e l l' v.2 h.1,
)

pub Evolves-AllExplained :
    (ts ts' : List Transaction) (l l' : List PaymentEvent)
    → ((k : Str) → key_used k ts ≡ true → key_used k ts' ≡ true)
    → Evolves l l'
    → AllExplained ts l
    → AllExplained ts' l'
Evolves-AllExplained ts ts' [] [] more v h = tt
Evolves-AllExplained ts ts' [] (_ ∷ _) more v h = absurd v
Evolves-AllExplained ts ts' (_ ∷ _) [] more v h = absurd v
Evolves-AllExplained ts ts' (r ∷ l) (r' ∷ l') more v h = (
  (λ a s. rw (v.0.0, v.0.3) (more _ (h.0 (v.1 a) (sym v.0.4 ∙ s)))),
  Evolves-AllExplained ts ts' l l' more v.2 h.1,
)

pub applied-AllExplained :
    (ts : List Transaction) (now : ℤ) (e : PaymentEvent) (l : List PaymentEvent)
    → IsSnapshot e l
    → (e.status ≡ EventStatus.paid → key_used (payment_key e.provider e.payment_id) ts ≡ true)
    → AllExplained ts l
    → AllExplained ts (mark_event e.provider e.event_id (applied_event now) l)
unfolding mark_event
applied-AllExplained ts now e [] s paid h = tt
applied-AllExplained ts now e (r ∷ l) s paid h =
    elim (Bool-cases (is_event e.provider e.event_id r)) [
      | inl q ↦
          let (p, t) = s.0 q in
          rw q (
            λ _ u.
                subst (λ y. key_used (payment_key y r.payment_id) ts ≡ true)
                  (sym (str_eq→eq r.provider e.provider (ground arith))) (rw p (paid (sym t ∙ u))),
            applied-AllExplained ts now e l s.1 paid h.1,
          )
      | inr q ↦ rw q (h.0, applied-AllExplained ts now e l s.1 paid h.1)
    ]

-- The ledger's part of the processing of an event is an effect of credits/, and leaves the key of a
-- payment in the ledger.
pub Posts-Effect :
    (env : Env) (user : Str) (amount : ℤ) (source reason key : Str) (kind : Kind) (db db' : Db)
    → Posts env user amount source reason key kind db db'
    → Effect db db' × (key_used key db'.transactions ≡ true)
unfolding key_used
Posts-Effect env user amount source reason key kind db db' (inl (used, e)) =
    (unchanged e, rw e used)
Posts-Effect env user amount source reason key kind db db' (inr (id, new, e)) =
    (adjusts env id user amount source reason key kind new e, rw (e, str_eq_refl key) refl)

pub reverse_tx-Effect :
    (env : Env) (p : Purchase) (e : PaymentEvent) (db db' : Db)
    → reverse_tx env p e db ≡ ok (tt, db')
    → Effect db db'
reverse_tx-Effect env p e db db' h = elim (reverse_tx-Posts env p e db db' h) [
  | inl q ↦ unchanged q
  | inr (_, q) ↦ (Posts-Effect env _ _ _ _ _ _ db db' q).0
]

pub ledger_tx-Effect :
    (status : EventStatus) (env : Env) (p : Purchase) (e : PaymentEvent) (db db' : Db)
    → ledger_tx status env p e db ≡ ok (tt, db')
    → Effect db db'
      × (status ≡ EventStatus.paid
          → key_used (payment_key e.provider e.payment_id) db'.transactions ≡ true)
unfolding ledger_tx
ledger_tx-Effect EventStatus.paid env p e db db' h =
    let (eff, used) =
      Posts-Effect env _ _ _ _ _ _ db db' (grant_payment_tx-Posts env p e db db' h) in
    (eff, λ _. used)
ledger_tx-Effect EventStatus.refunded env p e db db' h =
    (reverse_tx-Effect env p e db db' h, λ s. ground arith)
ledger_tx-Effect EventStatus.disputed env p e db db' h =
    (reverse_tx-Effect env p e db db' h, λ s. ground arith)
