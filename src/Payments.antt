-- ===== src/Payments.antt =====
-- payments/payments.go: the catalog, the tables of payments/schema.sql, and purchases.
pub mod Postings
pub mod Process
pub mod Plans
pub mod Report
pub mod Worker
mod Tests
use ai_credits.Prelude.{
  Bool, List, Option, Str, [], codes, if◌then◌else◌, leb, length, map, none, not, some, str_eq,
  true, ℕ, ◌&&◌, ◌+◌, ◌==◌, ◌||◌, ◌∷◌,
}
use ai_credits.Credits.Db.{Env}
use ai_credits.Credits.Errors.{
  Error, Result, catalog_item, check_failed, driver, err, no_random, no_rows, ok, purchase_parties,
  unique_failed, unknown_sku,
}
use ai_credits.Credits.Validate.{is_blank}
use ai_credits.Prelude.Int.{leb_ℤ, pos, ℤ}

-- An entry of the catalog.
pub record CatalogItem : Type 0 where
  pub credit_amount : ℤ
  pub currency : Str
  pub amount_minor : ℤ

-- The statuses of an event that `Receive` accepts.
pub data EventStatus : Type 0 where
  paid refunded disputed : EventStatus

pub data PurchaseStatus : Type 0 where
  pending : PurchaseStatus
  took : EventStatus → PurchaseStatus

pub data ProcessStatus : Type 0 where
  received processing failed applied : ProcessStatus

-- A row of payment_purchases.
pub record Purchase : Type 0 where
  pub id : Str
  pub provider : Str
  pub user_id : Str
  pub sku : Str
  pub credit_amount : ℤ
  pub currency : Str
  pub amount_minor : ℤ
  pub payment_id : Option Str
  pub status : PurchaseStatus
  pub created_at : ℤ
  pub updated_at : ℤ
  pub fulfilled_at : Option ℤ
  pub reversed_at : Option ℤ
  pub reversed_credits : ℤ

-- A row of payment_events. `last_error` holds the error itself, not its text.
pub record PaymentEvent : Type 0 where
  pub provider : Str
  pub event_id : Str
  pub purchase_id : Str
  pub payment_id : Str
  pub status : EventStatus
  pub payload_hash : Str
  pub process_status : ProcessStatus
  pub attempt_count : ℕ
  pub last_error : Option Error
  pub received_at : ℤ
  pub processed_at : Option ℤ
  pub lease_until : Option ℤ
  pub reversed_minor : ℤ

-- The two tables of the purchases and the ledger beside them, whatever it is; newest rows first.
pub record Books (L : Type 0) : Type 0 where
  pub ledger : L
  pub purchases : List Purchase
  pub events : List PaymentEvent

-- A call that changes the books.
abbrev pub BooksStep : Type 0 → Type 0
BooksStep L = Books L → Result (Unit {0}) × Books L

-- The checks of `New` on one entry.
unfoldable pub valid_item : Str × CatalogItem → Bool
valid_item (sku, item) = not (
    is_blank sku
    || leb_ℤ item.credit_amount (pos 0)
    || not (length item.currency == 3)
    || leb_ℤ item.amount_minor (pos 0))

unfoldable pub valid_catalog : List (Str × CatalogItem) → Bool
valid_catalog [] = true
valid_catalog (x ∷ rest) = valid_item x && valid_catalog rest

-- `New`, with the catalog as the service keeps it; that the database and the ledger are not nil is
-- taken for granted, and the statements that create the tables are the environment's first.
unfoldable pub new_catalog : Env → List (Str × CatalogItem) → Result (List (Str × CatalogItem))
new_catalog env items =
    if valid_catalog items
    then elim (env.stmt 0) [ none ↦ ok items | some e ↦ err (driver e) ]
    else err catalog_item

unfoldable pub find_item : Str → List (Str × CatalogItem) → Option CatalogItem
find_item sku [] = none
find_item sku ((k, item) ∷ rest) = if str_eq k sku then some item else find_item sku rest

-- `strings.ToLower` on ASCII.
abbrev pub lower_byte : ℕ → ℕ
lower_byte b = if leb 65 b && leb b 90 then b + 32 else b

abbrev pub to_lower : Str → Str
to_lower s = map lower_byte s

abbrev pub new_purchase : Env → Str → Str → Str → Str → CatalogItem → Purchase
new_purchase env id provider user sku item = record {
  id = id;
  provider = provider;
  user_id = user;
  sku = sku;
  credit_amount = item.credit_amount;
  currency = to_lower item.currency;
  amount_minor = item.amount_minor;
  payment_id = none;
  status = PurchaseStatus.pending;
  created_at = env.now;
  updated_at = env.now;
  fulfilled_at = none;
  reversed_at = none;
  reversed_credits = pos 0;
}

-- SELECT … FROM payment_purchases WHERE id = ?
unfoldable pub find_purchase : Str → List Purchase → Option Purchase
find_purchase i [] = none
find_purchase i (p ∷ rest) = if str_eq p.id i then some p else find_purchase i rest

-- INSERT INTO payment_purchases: the CHECK constraints and the primary key. A payment_id that is NULL
-- clashes with none.
unfoldable pub insert_purchase : Purchase → List Purchase → Result (List Purchase)
insert_purchase p rows =
    if leb_ℤ p.credit_amount (pos 0) || leb_ℤ p.amount_minor (pos 0)
    then err check_failed
    else elim (find_purchase p.id rows) [
      | none ↦ ok (p ∷ rows)
      | some q ↦ err (unique_failed (codes "payment_purchases.id"))
    ]

-- The insert of `CreatePurchase`, and the struct that it returns.
abbrev pub created :
    {L : Type 0} → Purchase → Books L → Result (List Purchase) → Result Purchase × Books L
created p b (err e) = (err e, b)
created p b (ok rows) = (ok p, record b { purchases = rows })

-- The end of `CreatePurchase`. `NewRequestID` panics if the source of randomness fails, which is an
-- error here.
unfoldable pub purchase_of :
    {L : Type 0} → Env → Str → Str → Str → CatalogItem → Books L → Result Purchase × Books L
purchase_of env provider user sku item b = elim env.new_id [
  | none ↦ (err no_random, b)
  | some id ↦ elim (env.stmt 0) [
    | some e ↦ (err (driver e), b)
    | none ↦
        let p = new_purchase env id provider user sku item in
        created p b (insert_purchase p b.purchases)
  ]
]

unfoldable pub create_purchase :
    {L : Type 0}
    → List (Str × CatalogItem)
    → Env
    → Str
    → Str
    → Str
    → Books L
    → Result Purchase × Books L
create_purchase catalog env provider user sku b = elim (find_item sku catalog) [
  | none ↦ (err unknown_sku, b)
  | some item ↦
      if is_blank provider || is_blank user
      then (err purchase_parties, b)
      else purchase_of env provider user sku item b
]

abbrev pub found_purchase : Option Str → Option Purchase → Result Purchase
found_purchase (some x) found = err (driver x)
found_purchase none none = err no_rows
found_purchase none (some p) = ok p

-- `Purchase`
unfoldable pub purchase : {L : Type 0} → Env → Str → Books L → Result Purchase
purchase env id b = found_purchase (env.stmt 1) (find_purchase id b.purchases)
