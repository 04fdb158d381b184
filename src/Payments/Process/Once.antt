-- ===== src/Payments/Process/Once.antt =====
-- payments/payments.go: every payment that is applied has its one row in the ledger.
-- The books, and everything that happens to them: purchases, events that arrive, leases that run
-- out, workers that process what they have read at some time, and any call of credits/.
use ai_credits.Prelude.{
  Bool-cases, List, Option, Str, [], arith, inl, inr, map, none, refl, some, subst, sym, ◌∷◌, ◌≡◌,
  ◌⊎◌,
}
use ai_credits.Credits.Db.{Db, Env, Transaction}
use ai_credits.Credits.Errors.{Result}
use ai_credits.Credits.Sound.{empty_db}
use ai_credits.Credits.Sound.Effect.{Effect}
use ai_credits.Payments.{
  Books, CatalogItem, EventStatus, PaymentEvent, ProcessStatus, Purchase, create_purchase,
  purchase_of,
}
use ai_credits.Payments.Postings.{payment_key}
use ai_credits.Payments.Process.{claimed, is_event, mark_event, post_atomic, post_to}
use ai_credits.Payments.Process.Explained.{
  AllExplained, Evolves-AllExplained, Evolves-IsSnapshot, IsExplained, IsSnapshot,
  applied-AllExplained, ledger_tx-Effect,
}
use ai_credits.Payments.Process.Keys.{
  Effect-KeysOnce, Effect-used, KeysOnce, key_count, key_count-used,
}
use ai_credits.Payments.Process.Outcome.{
  Evolves, Evolves-refl, IsMark, claimed-IsMark, mark_event-Evolves, process_atomic-Ends,
}
use ai_credits.Payments.Process.Queue.{
  IncomingEvent, compare_payload, expire_lease, find_event, lease_expired_at, process_atomic,
  process_two_phase, received_event, store_event, store_unless,
}
use ai_credits.Payments.Process.Stale.{post_to-PostedStale}
use ai_credits.Payments.Process.TwoPhase.{process_two_phase-Ends}
use ai_credits.Prelude.Int.{ℤ}

-- One step. `processes` is processOne with nothing in between; its parts `claims_event` and `posts` may
-- also come apart: `read` is what the query for the purchase has answered at whatever time.
pub data BookStep (b : Books Db) : Books Db → Type 0 where
  creates :
      (catalog : List (Str × CatalogItem)) (env : Env) (provider user sku : Str)
      → BookStep b (create_purchase catalog env provider user sku b).1
  stores :
      (env : Env) (e : IncomingEvent) (status : EventStatus)
      → BookStep b (store_event env e status b).1
  expires_leases : (now : ℤ) → BookStep b (record b { events = map (expire_lease now) b.events })
  processes :
      (env lenv : Env) (e : PaymentEvent)
      → IsSnapshot e b.events
      → BookStep b (process_atomic env lenv e b).1
  claims_event :
      (now : ℤ) (provider event : Str)
      → BookStep b (record b { events = mark_event provider event (claimed now) b.events })
  posts :
      (read : Result Purchase) (env lenv : Env) (e : PaymentEvent)
      → IsSnapshot e b.events
      → BookStep b (post_to read (post_atomic env lenv) env e b).1
  processes_two_phase :
      (env lenv : Env) (e : PaymentEvent)
      → IsSnapshot e b.events
      → BookStep b (process_two_phase env lenv e b).1
  calls : (db : Db) → Effect b.ledger db → BookStep b (record b { ledger = db })

pub data BookReach (b : Books Db) : Books Db → Type 0 where
  unmoved : BookReach b b
  moved : {c d : Books Db} → BookReach b c → BookStep c d → BookReach b d

abbrev pub new_books : Books Db
new_books = record { ledger = empty_db; purchases = []; events = [] }

-- What holds of the books whatever happens to them.
pub record IsKept (b : Books Db) : Type 0 where
  pub once : KeysOnce b.ledger.transactions
  pub explained : AllExplained b.ledger.transactions b.events

new_books-IsKept : IsKept new_books
unfolding key_count
new_books-IsKept = record { once = λ k. ground arith; explained = tt }

process_atomic-IsKept :
    (env lenv : Env) (e : PaymentEvent) (b : Books Db)
    → IsSnapshot e b.events
    → IsKept b
    → IsKept (process_atomic env lenv e b).1
process_atomic-IsKept env lenv e b s k = elim (process_atomic-Ends env lenv e b) [
  | inl (x, _, l, _, v) ↦ record {
    once = rw l k.once;
    explained =
        Evolves-AllExplained b.ledger.transactions _ b.events _ (λ j h. rw l h) v k.explained;
  }
  | inr (inl q) ↦ subst (λ o. IsKept o.1) (sym q) k
  | inr (inr (p, db, _, posted, _, q)) ↦
      subst (λ o. IsKept o.1) (sym q)
        (let (eff, used) = ledger_tx-Effect e.status lenv p e b.ledger db posted in
          let v =
            mark_event-Evolves e.provider e.event_id (claimed env.now) b.events
              (claimed-IsMark env.now) in
          record {
            once = Effect-KeysOnce b.ledger db eff k.once;
            explained =
                applied-AllExplained db.transactions env.now e _
                  (Evolves-IsSnapshot e b.events _ v s) used
                  (Evolves-AllExplained b.ledger.transactions db.transactions b.events _
                    (λ j. Effect-used b.ledger db j eff) v k.explained);
          })
]

pub create_purchase-keeps :
    (catalog : List (Str × CatalogItem)) (env : Env) (provider user sku : Str) (b : Books Db)
    → ((create_purchase catalog env provider user sku b).1.ledger ≡ b.ledger)
      × ((create_purchase catalog env provider user sku b).1.events ≡ b.events)
unfolding create_purchase purchase_of
create_purchase-keeps catalog env provider user sku b = (ground arith, ground arith)

compare_payload-same :
    (o : Option Str) (r : PaymentEvent) (e : IncomingEvent) (b : Books Db)
    → (compare_payload o r e b).1 ≡ b
compare_payload-same (some x) r e b = refl
compare_payload-same none r e b = ground arith

store_unless-Ends :
    (o : Option Str) (found : Option PaymentEvent) (env : Env) (e : IncomingEvent)
    (status : EventStatus) (b : Books Db)
    → ((store_unless o found env e status b).1 ≡ b)
      ⊎ ((found ≡ none)
          × ((store_unless o found env e status b).1
              ≡ record b { events = received_event env.now e status ∷ b.events }))
store_unless-Ends (some x) found env e status b = inl refl
store_unless-Ends none none env e status b = inr (refl, refl)
store_unless-Ends none (some r) env e status b = inl (compare_payload-same (env.stmt 1) r e b)

-- The insert of an event adds one row that is not applied, or none.
pub store_event-Ends :
    (env : Env) (e : IncomingEvent) (status : EventStatus) (b : Books Db)
    → ((store_event env e status b).1 ≡ b)
      ⊎ ((find_event e.provider e.event_id b.events ≡ none)
          × ((store_event env e status b).1
              ≡ record b { events = received_event env.now e status ∷ b.events }))
unfolding store_event
store_event-Ends env e status b = store_unless-Ends (env.stmt 0) _ env e status b

store_event-IsKept :
    (env : Env) (e : IncomingEvent) (status : EventStatus) (b : Books Db)
    → IsKept b
    → IsKept (store_event env e status b).1
store_event-IsKept env e status b k = elim (store_event-Ends env e status b) [
  | inl q ↦ subst (λ c. IsKept c) (sym q) k
  | inr (_, q) ↦
      subst (λ c. IsKept c) (sym q)
        (record { once = k.once; explained = ((λ a. ground arith), k.explained) })
]

pub expire_lease-IsMark : (now : ℤ) → IsMark (expire_lease now)
expire_lease-IsMark now r = elim (Bool-cases (lease_expired_at now r)) [
  | inl h ↦ rw h ((refl, refl, refl, refl, refl, refl), λ a. ground arith)
  | inr h ↦ rw h ((refl, refl, refl, refl, refl, refl), λ a. a)
]

pub map-Evolves :
    (f : PaymentEvent → PaymentEvent) (l : List PaymentEvent) → IsMark f → Evolves l (map f l)
map-Evolves f [] m = tt
map-Evolves f (r ∷ l) m = ((m r).0, (m r).1, map-Evolves f l m)

process_two_phase-IsKept :
    (env lenv : Env) (e : PaymentEvent) (b : Books Db)
    → IsSnapshot e b.events
    → IsKept b
    → IsKept (process_two_phase env lenv e b).1
process_two_phase-IsKept env lenv e b s k =
    let (eff, ends) = process_two_phase-Ends env lenv e b in
    let out = process_two_phase env lenv e b in
    record {
      once = Effect-KeysOnce b.ledger out.1.ledger eff k.once;
      explained = elim ends [
        | inl v ↦
            Evolves-AllExplained b.ledger.transactions _ b.events _
              (λ j. Effect-used b.ledger out.1.ledger j eff) v k.explained
        | inr (m, used) ↦
            let v =
              mark_event-Evolves e.provider e.event_id (claimed env.now) b.events
                (claimed-IsMark env.now) in
            subst (λ l. AllExplained out.1.ledger.transactions l) (sym m)
              (applied-AllExplained out.1.ledger.transactions env.now e _
                (Evolves-IsSnapshot e b.events _ v s) used
                (Evolves-AllExplained b.ledger.transactions out.1.ledger.transactions b.events _
                  (λ j. Effect-used b.ledger out.1.ledger j eff) v k.explained))
      ];
    }

post_to-IsKept :
    (read : Result Purchase) (env lenv : Env) (e : PaymentEvent) (b : Books Db)
    → IsSnapshot e b.events
    → IsKept b
    → IsKept (post_to read (post_atomic env lenv) env e b).1
post_to-IsKept read env lenv e b s k =
    let out = (post_to read (post_atomic env lenv) env e b).1 in
    elim (post_to-PostedStale read env lenv e b) [
      | inl (same, v) ↦ record {
        once = rw same k.once;
        explained =
            Evolves-AllExplained b.ledger.transactions _ b.events _ (λ j h. rw same h) v
              k.explained;
      }
      | inr (p, posted, marked) ↦
          let (eff, used) = ledger_tx-Effect e.status lenv p e b.ledger out.ledger posted in
          record {
            once = Effect-KeysOnce b.ledger out.ledger eff k.once;
            explained =
                subst (λ l. AllExplained out.ledger.transactions l) (sym marked)
                  (applied-AllExplained out.ledger.transactions env.now e b.events s used (
                    Evolves-AllExplained b.ledger.transactions out.ledger.transactions b.events
                      b.events (λ j. Effect-used b.ledger out.ledger j eff) (Evolves-refl b.events)
                      k.explained));
          }
    ]

BookStep-IsKept : {b c : Books Db} → BookStep b c → IsKept b → IsKept c
BookStep-IsKept {b} (creates catalog env provider user sku) k =
    let (l, v) = create_purchase-keeps catalog env provider user sku b in
    record { once = rw l k.once; explained = rw (l, v) k.explained }
BookStep-IsKept {b} (stores env e status) k = store_event-IsKept env e status b k
BookStep-IsKept {b} (expires_leases now) k = record {
  once = k.once;
  explained =
      Evolves-AllExplained _ b.ledger.transactions b.events _ (λ j h. h)
        (map-Evolves (expire_lease now) b.events (expire_lease-IsMark now)) k.explained;
}
BookStep-IsKept {b} (processes env lenv e s) k = process_atomic-IsKept env lenv e b s k
BookStep-IsKept {b} (claims_event now provider event) k = record {
  once = k.once;
  explained =
      Evolves-AllExplained _ b.ledger.transactions b.events _ (λ j h. h)
        (mark_event-Evolves provider event (claimed now) b.events (claimed-IsMark now)) k.explained;
}
BookStep-IsKept {b} (posts read env lenv e s) k = post_to-IsKept read env lenv e b s k
BookStep-IsKept {b} (processes_two_phase env lenv e s) k = process_two_phase-IsKept env lenv e b s k
BookStep-IsKept {b} (calls db eff) k = record {
  once = Effect-KeysOnce b.ledger db eff k.once;
  explained =
      Evolves-AllExplained b.ledger.transactions db.transactions b.events _
        (λ j. Effect-used b.ledger db j eff) (Evolves-refl b.events) k.explained;
}

pub BookReach-IsKept : {b c : Books Db} → BookReach b c → IsKept b → IsKept c
BookReach-IsKept unmoved k = k
BookReach-IsKept (moved r st) k = BookStep-IsKept st (BookReach-IsKept r k)

some_row_inj : (r e : PaymentEvent) → some r ≡ some e → r ≡ e
some_row_inj r e h = cc

IsExplained-event :
    (ts : List Transaction) (l : List PaymentEvent) (provider event : Str) (e : PaymentEvent)
    → find_event provider event l ≡ some e
    → AllExplained ts l
    → IsExplained ts e
unfolding find_event
IsExplained-event ts [] provider event e h k = absurd (ground arith)
IsExplained-event ts (r ∷ l) provider event e h k = elim (Bool-cases (is_event provider event r)) [
  | inl q ↦ subst (λ y. IsExplained ts y) (some_row_inj r e (rw q at h)) k.0
  | inr q ↦ IsExplained-event ts l provider event e (ground arith) k.1
]

-- Whatever happens to the books from the start, purchases, events that arrive once or often and in
-- any order, workers that die or fail at any statement on either path of processOne, on the path of
-- credits.Service also with other steps between the claim, the read of the purchase and the
-- transaction, and any calls of credits/: if an event of a paid payment is applied, there is exactly
-- one ledger row under the key of the payment.
pub paid_once :
    (b : Books Db) (provider event : Str) (e : PaymentEvent)
    → BookReach new_books b
    → find_event provider event b.events ≡ some e
    → e.process_status ≡ ProcessStatus.applied
    → e.status ≡ EventStatus.paid
    → key_count (payment_key e.provider e.payment_id) b.ledger.transactions ≡ 1
paid_once b provider event e reach found applied paid =
    let k = BookReach-IsKept reach new_books-IsKept in
    let used =
      IsExplained-event b.ledger.transactions b.events provider event e found k.explained applied
        paid in
    let some_row = key_count-used _ b.ledger.transactions used in
    let one_row = k.once (payment_key e.provider e.payment_id) in ground arith
