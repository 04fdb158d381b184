-- ===== src/Payments/Process/LostUpdate.antt =====
-- payments/payments.go: two reversals of a purchase whose row is read before either is posted.
use ai_credits.Prelude.{
  Option, Str, ap, arith, false, if◌then◌else◌, inl, inr, none, refl, some, str_eq, str_eq_refl,
  sym, true, ℕ, ◌<◌, ◌∙◌, ◌≡◌, ◌≤◌,
}
use ai_credits.Credits.Accounts.{balance_of, key_used}
use ai_credits.Credits.Accounts.Laws.{balance_of-upsert_balance}
use ai_credits.Credits.Db.{Db, Env}
use ai_credits.Credits.Errors.{Result, err, ok}
use ai_credits.Payments.{Books, EventStatus, PaymentEvent, Purchase, find_purchase}
use ai_credits.Payments.Postings.{ledger_tx, reversal_amount, reversal_key, reverse_tx}
use ai_credits.Payments.Process.{
  atomic_body, begin_event, commit_event, fail, in_event_tx, mark_purchase, new_reversed,
  post_atomic, purchase_after, record_event, record_posted,
}
use ai_credits.Payments.Process.Posting.{reverse_tx-positive}
use ai_credits.Payments.Process.Reversal.{
  IsSized, greater, new_reversed_lem, reversal_amount_lem, share,
}
use ai_credits.Payments.Process.Waiting.{find_purchase-mark, purchase_after-id}
use ai_credits.Prelude.Int.{int_laws, ltb_ℤ, neg, pos, ℤ, ◌+ℤ◌, ◌-ℤ◌}

posted_ok :
    (o : Option Str) (env : Env) (e : PaymentEvent) (r : Result (Books Db)) (b c : Books Db)
    → commit_event o env e r b ≡ (ok tt, c)
    → r ≡ ok c
unfolding fail
posted_ok o env e (err x) b c h = absurd (ground (arith, ap (λ y. y.0) h))
posted_ok (some x) env e (ok d) b c h = absurd (ground (arith, ap (λ y. y.0) h))
posted_ok none env e (ok d) b c h = ap (λ y. ok (y.1)) h

begun_ok :
    (o : Option Str) (env : Env) (e : PaymentEvent) (body : Books Db → Result (Books Db))
    (b c : Books Db)
    → begin_event o env e body b ≡ (ok tt, c)
    → body b ≡ ok c
unfolding fail
begun_ok (some x) env e body b c h = absurd (ground (arith, ap (λ y. y.0) h))
begun_ok none env e body b c h = posted_ok env.commit env e (body b) b c h

-- What a post writes that succeeds, from whatever row it was given.
abbrev Wrote : Env → Env → Purchase → PaymentEvent → Books Db → Books Db → Type 0
Wrote env lenv p e b c =
    (ledger_tx e.status lenv p e b.ledger ≡ ok (tt, c.ledger))
    × (c.purchases ≡ mark_purchase p.id (purchase_after e.status env.now p e) b.purchases)

record_posted-Wrote :
    (env lenv : Env) (p : Purchase) (e : PaymentEvent) (r : Result (Unit {0} × Db)) (b c : Books Db)
    → ledger_tx e.status lenv p e b.ledger ≡ r
    → record_posted env p e r b ≡ ok c
    → Wrote env lenv p e b c
unfolding record_event
record_posted-Wrote env lenv p e (err x) b c q h = absurd (ground arith)
record_posted-Wrote env lenv p e (ok (u, db)) b c q h =
    (q ∙ ap (λ l. ok (tt, l)) same, ground arith)
  where
    same : db ≡ c.ledger
    same = ground arith

post_atomic-Wrote :
    (env lenv : Env) (p : Purchase) (e : PaymentEvent) (b c : Books Db)
    → post_atomic env lenv p e b ≡ (ok tt, c)
    → Wrote env lenv p e b c
unfolding post_atomic in_event_tx atomic_body
post_atomic-Wrote env lenv p e b c h =
    record_posted-Wrote env lenv p e (ledger_tx e.status lenv p e b.ledger) b c refl
      (begun_ok env.begin env e _ b c h)

add_neg : (a x : ℤ) → a +ℤ neg x ≡ a -ℤ x
add_neg a x = grind int_laws

-- The debit of a reversal under a key that is new.
reverse_tx-debits :
    (env : Env) (p : Purchase) (e : PaymentEvent) (db db' : Db)
    → ltb_ℤ (pos 0) (reversal_amount p e.reversed_minor) ≡ true
    → key_used (reversal_key e.provider e.event_id) db.transactions ≡ false
    → reverse_tx env p e db ≡ ok (tt, db')
    → balance_of p.user_id db'.accounts
      ≡ balance_of p.user_id db.accounts -ℤ reversal_amount p e.reversed_minor
reverse_tx-debits env p e db db' positive new h =
    elim (reverse_tx-positive env p e db db' positive h) [
      | inl (used, _) ↦ absurd (cc (used, new))
      | inr (id, _, q) ↦
          ap (λ d. balance_of p.user_id d.accounts) q
          ∙ balance_of-upsert_balance p.user_id p.user_id (neg (reversal_amount p e.reversed_minor))
              env.now db.accounts
          ∙ same_user
    ]
  where
    same_user :
        (if str_eq p.user_id p.user_id
          then balance_of p.user_id db.accounts +ℤ neg (reversal_amount p e.reversed_minor)
          else balance_of p.user_id db.accounts)
        ≡ balance_of p.user_id db.accounts -ℤ reversal_amount p e.reversed_minor
    same_user =
        rw (str_eq_refl p.user_id)
          (add_neg (balance_of p.user_id db.accounts) (reversal_amount p e.reversed_minor))

-- A reversal whose share is above what the row that was read says is taken back.
pub record IsReversal (p : Purchase) (c m r : ℕ) (e : PaymentEvent) (b : Books Db) : Type 0 where
  pub refund : e.status ≡ EventStatus.refunded
  pub above : r < share c m e.reversed_minor
  pub new_key : key_used (reversal_key e.provider e.event_id) b.ledger.transactions ≡ false

is_above : (s r : ℕ) → r < s → ltb_ℤ (pos 0) (pos s -ℤ pos r) ≡ true
unfolding ◌-ℤ◌
is_above s r h = ground arith

refund_tx-reverse :
    (status : EventStatus) (env : Env) (p : Purchase) (e : PaymentEvent) (db : Db)
    → status ≡ EventStatus.refunded
    → ledger_tx status env p e db ≡ reverse_tx env p e db
unfolding ledger_tx
refund_tx-reverse EventStatus.refunded env p e db h = refl
refund_tx-reverse EventStatus.paid env p e db h = absurd (ground arith)
refund_tx-reverse EventStatus.disputed env p e db h = absurd (ground arith)

reversal-debits :
    (env : Env) (p : Purchase) (c m r : ℕ) (e : PaymentEvent) (b : Books Db) (db : Db)
    → IsSized p c m
    → p.reversed_credits ≡ pos r
    → r ≤ c
    → IsReversal p c m r e b
    → ledger_tx e.status env p e b.ledger ≡ ok (tt, db)
    → balance_of p.user_id db.accounts
      ≡ balance_of p.user_id b.ledger.accounts -ℤ (pos (share c m e.reversed_minor) -ℤ pos r)
reversal-debits env p c m r e b db s taken low v h =
    let amount = reversal_amount_lem p c m r e.reversed_minor s taken low in
    reverse_tx-debits env p e b.ledger db
      (ap (ltb_ℤ (pos 0)) amount ∙ is_above (share c m e.reversed_minor) r v.above) v.new_key
      (sym (refund_tx-reverse e.status env p e b.ledger v.refund) ∙ h)
    ∙ ap (λ x. balance_of p.user_id b.ledger.accounts -ℤ x) amount

purchase_after-refund :
    (status : EventStatus) (now : ℤ) (read : Purchase) (e : PaymentEvent) (q : Purchase)
    → status ≡ EventStatus.refunded
    → (purchase_after status now read e q).reversed_credits ≡ new_reversed read e.reversed_minor
unfolding purchase_after
purchase_after-refund EventStatus.refunded now read e q h = refl
purchase_after-refund EventStatus.paid now read e q h = absurd (ground arith)
purchase_after-refund EventStatus.disputed now read e q h = absurd (ground arith)

-- An update is lost: if two refunds of a purchase are posted that have both read its row before either
-- is posted, and neither has been posted before, then each debits its whole share above what the row
-- said, and the row counts only the share of the second. The product of the credits and the price,
-- and the price once more, is in int64.
pub two_reversals_debit_twice :
    (env env' lenv lenv' : Env) (p : Purchase) (e e' : PaymentEvent) (b b1 b2 : Books Db)
    (c m r : ℕ)
    → IsSized p c m
    → p.reversed_credits ≡ pos r
    → r ≤ c
    → find_purchase p.id b.purchases ≡ some p
    → IsReversal p c m r e b
    → IsReversal p c m r e' b1
    → post_atomic env lenv p e b ≡ (ok tt, b1)
    → post_atomic env' lenv' p e' b1 ≡ (ok tt, b2)
    → (balance_of p.user_id b2.ledger.accounts
        ≡ balance_of p.user_id b.ledger.accounts
          -ℤ (pos (share c m e.reversed_minor) -ℤ pos r)
          -ℤ (pos (share c m e'.reversed_minor) -ℤ pos r))
      × ((p' : Purchase) × (find_purchase p.id b2.purchases ≡ some p')
          × (p'.reversed_credits ≡ pos (share c m e'.reversed_minor)))
two_reversals_debit_twice env env' lenv lenv' p e e' b b1 b2 c m r s taken low found v v' h h' =
    let (debit, row) = post_atomic-Wrote env lenv p e b b1 h in
    let (debit', row') = post_atomic-Wrote env' lenv' p e' b1 b2 h' in
    let f = purchase_after e.status env.now p e in
    let f' = purchase_after e'.status env'.now p e' in
    (
      reversal-debits lenv' p c m r e' b1 b2.ledger s taken low v' debit'
          ∙ ap (λ x. x -ℤ (pos (share c m e'.reversed_minor) -ℤ pos r))
              (reversal-debits lenv p c m r e b b1.ledger s taken low v debit),
      (
        f' (f p),
        ap (find_purchase p.id) row'
            ∙ find_purchase-mark p.id f' b1.purchases (f p)
                (purchase_after-id e'.status env'.now p e')
                (ap (find_purchase p.id) row
                  ∙ find_purchase-mark p.id f b.purchases p (purchase_after-id e.status env.now p e)
                      found),
        purchase_after-refund e'.status env'.now p e' (f p) v'.refund
            ∙ new_reversed_lem p c m r e'.reversed_minor s taken low
            ∙ ap pos (second (share c m e'.reversed_minor) v'.above),
      ),
    )
  where
    second : (k : ℕ) → r < k → greater r k ≡ k
    second k h = ground arith
