-- ===== src/Credits/System/Laws.antt =====
-- Whatever the calls and their order, the tables stay sound.
use ai_credits.Prelude.{
  Bool-cases, List, Str, [], inl, inr, none, refl, str_eq_refl, subst, ◌&&◌, ◌++◌, ◌∷◌, ◌≡◌,
}
use ai_credits.Credits.Accounts.{balance_of, ledger_total}
use ai_credits.Credits.Db.{Db, Env, Reservation, Subscription}
use ai_credits.Credits.Ledger.{grant}
use ai_credits.Credits.Reconcile.{Stale, select_stale}
use ai_credits.Credits.Reservation.Finalize.{is_status_reserved}
use ai_credits.Credits.Reservation.Rows.{DistinctReservations, find_reservation}
use ai_credits.Credits.Sound.{IsSound, reference_sum}
use ai_credits.Credits.Sound.Adjust.{grant-IsSound, refund-IsSound}
use ai_credits.Credits.Sound.Effect.{
  expire_one-Effect, grant-Effect, refund-Effect, release-Effect, reserve-Effect, settle-Effect,
}
use ai_credits.Credits.Sound.Expire.{IsRead, expire_one-IsSound}
use ai_credits.Credits.Sound.Finalize.{release-IsSound, settle-IsSound}
use ai_credits.Credits.Sound.Keep.{Effect-KeepsRows, IsRead-keep, KeepsRows, insert-KeepsRows}
use ai_credits.Credits.Sound.Reserve.{reserve-IsSound}
use ai_credits.Credits.System.{
  IsListed, Reach, State, Step, cancels, expires, grants, grants_monthly, here, next, reads,
  refunds, releases, reserves, settles, start, subscribes,
}
use ai_credits.Credits.System.Plans.{
  cancel_subscription-Only, ensure_monthly_grant-GrantsOnce, set_subscription-Only,
}
use ai_credits.Credits.Tests.{cfg, key, request}
use ai_credits.Prelude.Int.{ltb_ℤ, ℤ}

abbrev pub AllRead : List Stale → List Reservation → Type 0
AllRead [] rows = Unit
AllRead (st ∷ rest) rows = IsRead st (find_reservation st.id rows) × AllRead rest rows

pub record IsSafe (s : State) : Type 0 where
  pub sound : IsSound s.db
  pub all_read : AllRead s.read s.db.reservations

pub AllRead-keep :
    (sts : List Stale) (rows rows' : List Reservation)
    → KeepsRows rows rows'
    → AllRead sts rows
    → AllRead sts rows'
AllRead-keep [] rows rows' k h = tt
AllRead-keep (st ∷ rest) rows rows' k h =
    (IsRead-keep st rows rows' k h.0, AllRead-keep rest rows rows' k h.1)

pub AllRead-listed :
    (st : Stale) (sts : List Stale) (rows : List Reservation)
    → AllRead sts rows
    → IsListed st sts
    → IsRead st (find_reservation st.id rows)
AllRead-listed st [] rows h m = absurd m
AllRead-listed st (x ∷ rest) rows h (inl e) =
    subst (λ y. IsRead y (find_reservation y.id rows)) e h.0
AllRead-listed st (x ∷ rest) rows h (inr m) = AllRead-listed st rest rows h.1 m

AllRead-append :
    (sts sts' : List Stale) (rows : List Reservation)
    → AllRead sts rows
    → AllRead sts' rows
    → AllRead (sts ++ sts') rows
AllRead-append [] sts' rows h h' = h'
AllRead-append (st ∷ rest) sts' rows h h' = (h.0, AllRead-append rest sts' rows h.1 h')

-- A read under a newer row with another id is still a read.
AllRead-cons :
    (r : Reservation) (sts : List Stale) (rows : List Reservation)
    → find_reservation r.id rows ≡ none
    → AllRead sts rows
    → AllRead sts (r ∷ rows)
AllRead-cons r sts rows new h = AllRead-keep sts rows (r ∷ rows) (insert-KeepsRows r rows new) h

own_row :
    (r : Reservation) (rest : List Reservation)
    → IsRead
        (record { id = r.id; user_id = r.user_id; amount = r.amount })
        (find_reservation r.id (r ∷ rest))
unfolding find_reservation
own_row r rest = rw (str_eq_refl r.id) (refl, refl)

-- What the query reads is in the table.
pub select_stale-AllRead :
    (cutoff : ℤ) (rows : List Reservation)
    → DistinctReservations rows
    → AllRead (select_stale cutoff rows) rows
unfolding select_stale
select_stale-AllRead cutoff [] d = tt
select_stale-AllRead cutoff (r ∷ rest) d =
    elim (Bool-cases (is_status_reserved r.status && ltb_ℤ r.created_at cutoff)) [
      | inl h ↦
          rw h (own_row r rest, AllRead-cons r _ rest d.0 (select_stale-AllRead cutoff rest d.1))
      | inr h ↦ rw h (AllRead-cons r _ rest d.0 (select_stale-AllRead cutoff rest d.1))
    ]

-- A change of the subscriptions alone touches nothing that soundness speaks of.
subscriptions-IsSound :
    (db : Db) (l : List Subscription) → IsSound db → IsSound (record db { subscriptions = l })
subscriptions-IsSound db l s = record {
  users = s.users;
  ids = s.ids;
  balanced = s.balanced;
  held = s.held;
}

grant-IsSafe :
    (env : Env) (user : Str) (amount : ℤ) (source reason key : Str) (s : State)
    → IsSafe s
    → IsSafe (record s { db = (grant env user amount source reason key s.db).1 })
grant-IsSafe env user amount source reason key s h = record {
  sound = grant-IsSound env user amount source reason key s.db h.sound;
  all_read =
      AllRead-keep s.read _ _
        (Effect-KeepsRows s.db _ (grant-Effect env user amount source reason key s.db)) h.all_read;
}

-- Every step keeps the tables sound, and what has been read of them true.
pub Step-IsSafe : {s t : State} → Step s t → IsSafe s → IsSafe t
Step-IsSafe {s} (grants env user amount source reason key) h =
    grant-IsSafe env user amount source reason key s h
Step-IsSafe {s} (refunds env user amount source reason key) h = record {
  sound = refund-IsSound env user amount source reason key s.db h.sound;
  all_read =
      AllRead-keep s.read _ _
        (Effect-KeepsRows s.db _ (refund-Effect env user amount source reason key s.db)) h.all_read;
}
Step-IsSafe {s} (reserves env user request amount) h = record {
  sound = reserve-IsSound env user request amount s.db h.sound;
  all_read =
      AllRead-keep s.read _ _
        (Effect-KeepsRows s.db _ (reserve-Effect env user request amount s.db)) h.all_read;
}
Step-IsSafe {s} (settles env r actual) h = record {
  sound = settle-IsSound env r actual s.db h.sound;
  all_read =
      AllRead-keep s.read _ _ (Effect-KeepsRows s.db _ (settle-Effect env r actual s.db))
        h.all_read;
}
Step-IsSafe {s} (releases env r) h = record {
  sound = release-IsSound env r s.db h.sound;
  all_read =
      AllRead-keep s.read _ _ (Effect-KeepsRows s.db _ (release-Effect env r s.db)) h.all_read;
}
Step-IsSafe {s} (reads cutoff) h = record {
  sound = h.sound;
  all_read =
      AllRead-append _ s.read _ (select_stale-AllRead cutoff s.db.reservations h.sound.ids)
        h.all_read;
}
Step-IsSafe {s} (expires env st m) h = record {
  sound =
      expire_one-IsSound env st s.db h.sound
        (AllRead-listed st s.read s.db.reservations h.all_read m);
  all_read =
      AllRead-keep s.read _ _ (Effect-KeepsRows s.db _ (expire_one-Effect env st s.db)) h.all_read;
}
Step-IsSafe {s} (subscribes env user plan status) h =
    let (l, e) = set_subscription-Only env user plan status s.db in
    rw e (record { sound = subscriptions-IsSound s.db l h.sound; all_read = h.all_read })
Step-IsSafe {s} (cancels env user) h =
    let (l, e) = cancel_subscription-Only env user s.db in
    rw e (record { sound = subscriptions-IsSound s.db l h.sound; all_read = h.all_read })
Step-IsSafe {s} (grants_monthly cfg env period user plan) h =
    elim (ensure_monthly_grant-GrantsOnce cfg env period user plan s.db) [
      | inl e ↦ rw e h
      | inr e ↦ rw e (grant-IsSafe env user _ _ _ _ s h)
    ]

pub Reach-IsSafe : {s t : State} → IsSafe s → Reach s t → IsSafe t
Reach-IsSafe h here = h
Reach-IsSafe h (next r st) = Step-IsSafe st (Reach-IsSafe h r)

pub start-IsSafe : IsSafe start
unfolding balance_of ledger_total reference_sum find_reservation
start-IsSafe = record {
  sound = record { users = tt; ids = tt; balanced = λ u. refl; held = λ i. refl };
  all_read = tt;
}
