-- ===== src/Payments/Process/Reversal.antt =====
-- payments/payments.go: how much of a purchase its reversals take back.
use ai_credits.Prelude.{
  arith, false, if◌then◌else◌, leb, suc, true, zero, ℕ, ◌*◌, ◌+◌, ◌-◌, ◌/◌, ◌<◌, ◌≡◌, ◌≤◌,
}
use ai_credits.Credits.Pricing.Laws.{ceil_steps, quotient-IsCeil}
use ai_credits.Payments.{EventStatus, PaymentEvent, Purchase}
use ai_credits.Payments.Postings.{min_ℤ, reversal_amount}
use ai_credits.Payments.Process.{new_reversed, purchase_after}
use ai_credits.Prelude.Int.{ltb_ℤ, negsuc, pos, ℤ, ◌+ℤ◌, ◌-ℤ◌}
use ai_credits.Prelude.Int64.{add64, div64, max_int64, mul64, mul64-fits, sub64, wrap}

abbrev pub lesser : ℕ → ℕ → ℕ
lesser a b = if leb a b then a else b

abbrev pub greater : ℕ → ℕ → ℕ
greater a b = if leb a b then b else a

-- The credits that a reversal stands for, of `c` credits for the price `m`: all of them if the event
-- names no amount, and otherwise the share of the amount in the price, rounded up.
abbrev pub share : ℕ → ℕ → ℤ → ℕ
share c m (negsuc n) = c
share c m (pos zero) = c
share c m (pos (suc n)) = (c * lesser (suc n) m + m - 1) / m

-- A purchase whose amounts int64 can hold when they are multiplied.
pub record IsSized (p : Purchase) (c m : ℕ) : Type 0 where
  pub credits_are : p.credit_amount ≡ pos c
  pub price_is : p.amount_minor ≡ pos m
  pub has_price : 1 ≤ m
  pub fits : c * m + m ≤ max_int64

product_mono : (c k m : ℕ) → k ≤ m → c * k ≤ c * m
product_mono zero k m h = omega arith
product_mono (suc c) k m h = omega (arith, product_mono c k m h)

credits_small : (c m : ℕ) → 1 ≤ m → c ≤ c * m
credits_small zero m h = omega arith
credits_small (suc c) m h = omega (arith, credits_small c m h)

lesser_le : (k m : ℕ) → lesser k m ≤ m
lesser_le k m = ground arith

quotient_below : (q c m : ℕ) → q * m < c * m + m → q ≤ c
quotient_below zero c m h = omega arith
quotient_below (suc q) zero m h = omega arith
quotient_below (suc q) (suc c) m h = omega (arith, quotient_below q c m (omega arith))

pub share_le : (c m : ℕ) (minor : ℤ) → 1 ≤ m → share c m minor ≤ c
share_le c m (negsuc n) h = omega arith
share_le c m (pos zero) h = omega arith
share_le c m (pos (suc n)) h =
    let a = c * lesser (suc n) m in
    let bound = product_mono c (lesser (suc n) m) m (lesser_le (suc n) m) in
    let ceil = quotient-IsCeil a m h in quotient_below _ c m (omega arith)

sub64-small : (a b : ℕ) → a ≤ max_int64 → b ≤ max_int64 → sub64 (pos a) (pos b) ≡ pos a -ℤ pos b
unfolding wrap ◌-ℤ◌
sub64-small a b h k = ground arith

min_ℤ-pos : (a b : ℕ) → min_ℤ (pos a) (pos b) ≡ pos (lesser a b)
min_ℤ-pos a b = ground arith

share_steps :
    (c m r n : ℕ)
    → 1 ≤ m
    → c * m + m ≤ max_int64
    → r ≤ c
    → sub64
        (div64
          (sub64 (add64 (mul64 (pos c) (min_ℤ (pos (suc n)) (pos m))) (pos m)) (pos 1))
          (pos m))
        (pos r)
      ≡ pos (share c m (pos (suc n))) -ℤ pos r
share_steps c m r n h fits low =
    let k = lesser (suc n) m in
    let bound = product_mono c k m (lesser_le (suc n) m) in
    let small = credits_small c m h in
    let below = share_le c m (pos (suc n)) h in
    rw (min_ℤ-pos (suc n) m, mul64-fits c k (omega arith), ceil_steps (c * k) m h (omega arith))
      (sub64-small (share c m (pos (suc n))) r (omega arith) (omega arith))

not_positive : (n : ℕ) → ltb_ℤ (pos 0) (negsuc n) ≡ false
not_positive n = ground arith

is_positive : (n : ℕ) → ltb_ℤ (pos 0) (pos (suc n)) ≡ true
is_positive n = ground arith

-- The code's arithmetic does not wrap around for such a purchase.
pub reversal_amount_lem :
    (p : Purchase) (c m r : ℕ) (minor : ℤ)
    → IsSized p c m
    → p.reversed_credits ≡ pos r
    → r ≤ c
    → reversal_amount p minor ≡ pos (share c m minor) -ℤ pos r
unfolding reversal_amount
reversal_amount_lem p c m r (negsuc n) s e h =
    let small = credits_small c m s.has_price in
    rw (s.credits_are, e, not_positive n)
      (sub64-small c r (omega (arith, s.fits)) (omega (arith, s.fits)))
reversal_amount_lem p c m r (pos zero) s e h =
    let small = credits_small c m s.has_price in
    rw (s.credits_are, e) (sub64-small c r (omega (arith, s.fits)) (omega (arith, s.fits)))
reversal_amount_lem p c m r (pos (suc n)) s e h =
    rw (s.credits_are, s.price_is, e, is_positive n) (share_steps c m r n s.has_price s.fits h)

raised :
    (r s : ℕ)
    → r ≤ max_int64
    → s ≤ max_int64
    → add64 (pos r) (if ltb_ℤ (pos 0) (pos s -ℤ pos r) then pos s -ℤ pos r else pos 0)
      ≡ pos (greater r s)
unfolding wrap ◌+ℤ◌ ◌-ℤ◌
raised r s h k = ground arith

-- A reversal raises the credits taken back to its share, if they are below it.
pub new_reversed_lem :
    (p : Purchase) (c m r : ℕ) (minor : ℤ)
    → IsSized p c m
    → p.reversed_credits ≡ pos r
    → r ≤ c
    → new_reversed p minor ≡ pos (greater r (share c m minor))
unfolding new_reversed
new_reversed_lem p c m r minor s e h =
    let small = credits_small c m s.has_price in
    let below = share_le c m minor s.has_price in
    rw (reversal_amount_lem p c m r minor s e h, e)
      (raised r (share c m minor) (omega (arith, s.fits)) (omega (arith, s.fits)))

-- What an event of a status raises `r` to, if its share is `s`.
abbrev pub counted : EventStatus → ℕ → ℕ → ℕ
counted EventStatus.paid r s = r
counted EventStatus.refunded r s = greater r s
counted EventStatus.disputed r s = greater r s

greater_le : (r s c : ℕ) → r ≤ c → s ≤ c → greater r s ≤ c
greater_le r s c h k = ground arith

pub counted_le : (status : EventStatus) (r s c : ℕ) → r ≤ c → s ≤ c → counted status r s ≤ c
counted_le EventStatus.paid r s c h k = h
counted_le EventStatus.refunded r s c h k = greater_le r s c h k
counted_le EventStatus.disputed r s c h k = greater_le r s c h k

-- One event leaves what was sold, and counts what is taken back.
pub after_one :
    (status : EventStatus) (now : ℤ) (e : PaymentEvent) (p : Purchase) (c m r : ℕ)
    → IsSized p c m
    → p.reversed_credits ≡ pos r
    → r ≤ c
    → IsSized (purchase_after status now p e p) c m
      × ((purchase_after status now p e p).reversed_credits
          ≡ pos (counted status r (share c m e.reversed_minor)))
unfolding purchase_after
after_one EventStatus.paid now e p c m r s q h = (
  record {
    credits_are = s.credits_are;
    price_is = s.price_is;
    has_price = s.has_price;
    fits = s.fits;
  },
  q,
)
after_one EventStatus.refunded now e p c m r s q h = (
  record {
    credits_are = s.credits_are;
    price_is = s.price_is;
    has_price = s.has_price;
    fits = s.fits;
  },
  new_reversed_lem p c m r e.reversed_minor s q h,
)
after_one EventStatus.disputed now e p c m r s q h = (
  record {
    credits_are = s.credits_are;
    price_is = s.price_is;
    has_price = s.has_price;
    fits = s.fits;
  },
  new_reversed_lem p c m r e.reversed_minor s q h,
)
