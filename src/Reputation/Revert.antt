-- ===== src/Reputation/Revert.antt =====
-- Reverting an event undoes what applying it counted.
use xe.Prelude.{
  ℕ, ◌+◌, ◌<◌, ◌≡◌, String, arith, refl, Bool, true, false, not, ◌&&◌, Bool-cases, inl, inr, str_eq,
}
use xe.Prelude.Int.{ℤ}
use xe.Word.{modulus}
use xe.Reputation.{
  ReputationEvent, ReputationAggregate, EventKind, apply_reputation_delta, revert_reputation_delta,
  count, inc_if, dec_if, touch,
}

-- The counters of an aggregate are small enough to count `d` more.
pub record HasRoom (d : ℕ) (a : ReputationAggregate) : Type 0 where
  pub accepted_p : a.leases_accepted_as_provider + 1 < modulus
  pub settled_p : a.leases_settled_as_provider + 1 < modulus
  pub hours_p : a.lease_hours_settled_as_provider + d < modulus
  pub unfulfilled_p : a.leases_unfulfilled_as_provider + 1 < modulus
  pub accepted_c : a.leases_accepted_as_consumer + 1 < modulus
  pub settled_c : a.leases_settled_as_consumer + 1 < modulus
  pub cancelled_c : a.leases_cancelled_as_consumer + 1 < modulus
  pub hours_c : a.lease_hours_settled_as_consumer + d < modulus
  pub unfulfilled_c : a.leases_unfulfilled_as_consumer + 1 < modulus

-- A record with the activity times of another.
abbrev pub with_times : ReputationAggregate → ReputationAggregate → ReputationAggregate
with_times t a = record a {
  first_activity_at = t.first_activity_at;
  last_activity_at = t.last_activity_at;
}

dec_inc : (who : Bool) (by c : ℕ) → c + by < modulus → dec_if who by (inc_if who by c) ≡ c
dec_inc true by c h = ground arith
dec_inc false by c h = refl

count-dec-inc :
    (k : EventKind) (p c : Bool) (d : ℕ) (t : ℤ) (a : ReputationAggregate)
    → HasRoom d a
    → count dec_if k p c d (touch t (count inc_if k p c d a))
      ≡ with_times (touch t (count inc_if k p c d a)) a
unfolding count touch
count-dec-inc EventKind.lease_accepted p c d t a h =
    rw (dec_inc p 1 _ h.accepted_p, dec_inc c 1 _ h.accepted_c)
count-dec-inc EventKind.lease_settled p c d t a h = rw (
  dec_inc p 1 _ h.settled_p,
  dec_inc c 1 _ h.settled_c,
  dec_inc p d _ h.hours_p,
  dec_inc c d _ h.hours_c,
)
count-dec-inc EventKind.lease_cancelled p c d t a h = rw (dec_inc c 1 _ h.cancelled_c)
count-dec-inc EventKind.lease_unfulfilled p c d t a h =
    rw (dec_inc p 1 _ h.unfulfilled_p, dec_inc c 1 _ h.unfulfilled_c)

-- If no counter is about to wrap, then reverting an event after applying it, for the same account,
-- gives back every counter and the version as they were before; only the two activity times keep
-- what applying the event wrote.
pub revert-apply :
    (a : ReputationAggregate) (account : String) (ev : ReputationEvent)
    → HasRoom ev.duration_secs a
    → revert_reputation_delta (apply_reputation_delta a account ev) account ev
      ≡ with_times (apply_reputation_delta a account ev) a
unfolding revert_reputation_delta apply_reputation_delta
revert-apply a account ev h = elim (Bool-cases (str_eq account "")) [
  | inl e ↦ rw e
  | inr e ↦
      rw e
        (elim (Bool-cases (not (str_eq account ev.provider) && not (str_eq account ev.consumer))) [
          | inl f ↦ rw f
          | inr f ↦ rw f (count-dec-inc ev.kind _ _ ev.duration_secs ev.timestamp a h)
        ])
]
