-- ===== src/Credits/Tests.antt =====
-- Runs of the ledger on small tables, and the environments and states of the witnesses.
pub mod Runs
pub mod Books
pub mod Calls
pub mod Months
pub mod Prices
pub mod Trail
pub mod Outbox
use ai_credits.Prelude.{Str, [], codes, none, some}
use ai_credits.Credits.Db.{Env, Reservation, Status, calm}
use ai_credits.Credits.Ledger.{grant, refund}
use ai_credits.Credits.Monthly.{Config, ensure_monthly_grant}
use ai_credits.Credits.Reconcile.{Stale, expire_stale}
use ai_credits.Credits.Reservation.{new_reservation, reserve}
use ai_credits.Credits.Reservation.Finalize.{release, settle}
use ai_credits.Credits.Sound.{empty_db}
use ai_credits.Credits.Subscription.{cancel_subscription, set_subscription}
use ai_credits.Credits.System.{Reach, State, grants, here, next, reserves, settles, start}
use ai_credits.Prelude.Int.{pos}

abbrev pub ann : Str
ann = codes "ann"

abbrev pub bob : Str
bob = codes "bob"

abbrev pub src : Str
src = codes "stripe"

abbrev pub why : Str
why = codes "pack"

abbrev pub key : Str
key = codes "k1"

abbrev pub request : Str
request = codes "q1"

-- Environments of calls one after the other, and one whose commit fails.
abbrev pub env1 : Env
env1 = calm (pos 100) (codes "t1")

abbrev pub env2 : Env
env2 = calm (pos 200) (codes "r1")

abbrev pub env3 : Env
env3 = calm (pos 900) (codes "t2")

abbrev pub env4 : Env
env4 = record {
  now = pos 950;
  new_id = some (codes "t3");
  begin = none;
  commit = some (codes "disk full");
  stmt = λ n. none;
}

-- ann is granted 100 credits; 30 are reserved; the call costs 45, or is cancelled, or is forgotten.
abbrev pub granted : State
granted = record start { db = (grant env1 ann (pos 100) src why key empty_db).1 }

abbrev pub reserved : State
reserved = record granted { db = (reserve env2 ann request (pos 30) granted.db).1 }

abbrev pub held : Reservation
held = new_reservation env2 (codes "r1") ann request (pos 30)

abbrev pub settled : State
settled = record reserved { db = (settle env3 (some held) (pos 45) reserved.db).2 }

abbrev pub released : State
released = record reserved { db = (release env3 (some held) reserved.db).2 }

-- The struct as a settle leaves it.
abbrev pub held_settled : Reservation
held_settled = record held {
  captured_amount = pos 45;
  status = Status.captured;
  updated_at = pos 900;
}

abbrev pub held_released : Reservation
held_released = record held {
  released_amount = pos 30;
  status = Status.released;
  updated_at = pos 900;
}

abbrev pub stale : Stale
stale = record { id = codes "r1"; user_id = ann; amount = pos 30 }

abbrev pub granted_reach : Reach start granted
granted_reach = next here (grants env1 ann (pos 100) src why key)

abbrev pub reserved_reach : Reach start reserved
reserved_reach = next granted_reach (reserves env2 ann request (pos 30))

abbrev pub settled_step : Reach reserved settled
settled_step = next here (settles env3 (some held) (pos 45))

abbrev pub settled_reach : Reach start settled
settled_reach = next reserved_reach (settles env3 (some held) (pos 45))

abbrev pub refunded : State
refunded = record granted { db = (refund env3 ann (pos 100) src why (codes "k2") granted.db).1 }

abbrev pub expired : State
expired = record reserved { db = (expire_stale (pos 300) env3 (λ n. env3) (pos 900) reserved.db).1 }

-- 50 credits a month.
abbrev pub cfg : Config
cfg = record { monthly_credits = pos 50; plan_monthly_credits = []; reservation_timeout = pos 300 }

abbrev pub month : Str
month = codes "2026-08"

abbrev pub pro : Str
pro = codes "pro"

abbrev pub month_granted : State
month_granted = record start { db = (ensure_monthly_grant cfg env1 month ann [] empty_db).1 }

abbrev pub subscribed : State
subscribed = record start { db = (set_subscription env1 ann pro (codes "active") empty_db).1 }

abbrev pub cancelled : State
cancelled = record subscribed { db = (cancel_subscription env2 ann subscribed.db).1 }
