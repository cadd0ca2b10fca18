-- ===== src/Reputation.antt =====
-- The reputation counters of providers and consumers (core/reputation.go). The engine's map is the
-- state; the copy that it writes through to a store is the same value.
pub mod Revert
use xe.Prelude.{
  ℕ, ◌+◌, ◌-◌, String, Bool, true, false, not, ◌&&◌, ◌||◌, Option, none, some, List, [], ◌∷◌, ltb,
  ◌==◌, str_eq, if◌then◌else◌,
}
use xe.Prelude.Int.{ℤ, pos, negsuc, ltb_ℤ}
use xe.Map.{Map, lookup, insert, delete}
use xe.Word.{add_u64}

pub data EventKind : Type 0 where
  lease_accepted lease_settled lease_cancelled lease_unfulfilled : EventKind

pub record ReputationEvent : Type 0 where
  pub kind : EventKind
  pub provider : String
  pub consumer : String
  pub timestamp : ℤ
  pub duration_secs : ℕ

pub record ReputationAggregate : Type 0 where
  pub version : ℕ
  pub leases_accepted_as_provider : ℕ
  pub leases_settled_as_provider : ℕ
  pub lease_hours_settled_as_provider : ℕ
  pub leases_unfulfilled_as_provider : ℕ
  pub leases_accepted_as_consumer : ℕ
  pub leases_settled_as_consumer : ℕ
  pub leases_cancelled_as_consumer : ℕ
  pub lease_hours_settled_as_consumer : ℕ
  pub leases_unfulfilled_as_consumer : ℕ
  pub first_activity_at : ℤ
  pub last_activity_at : ℤ

abbrev pub new_reputation_aggregate : ReputationAggregate
new_reputation_aggregate = record {
  version = 2;
  leases_accepted_as_provider = 0;
  leases_settled_as_provider = 0;
  lease_hours_settled_as_provider = 0;
  leases_unfulfilled_as_provider = 0;
  leases_accepted_as_consumer = 0;
  leases_settled_as_consumer = 0;
  leases_cancelled_as_consumer = 0;
  lease_hours_settled_as_consumer = 0;
  leases_unfulfilled_as_consumer = 0;
  first_activity_at = pos 0;
  last_activity_at = pos 0;
}

-- `if who { c += by }` and `if who { dec(&c, by) }`
abbrev inc_if : Bool → ℕ → ℕ → ℕ
inc_if true by c = add_u64 c by
inc_if false by c = c

abbrev dec_if : Bool → ℕ → ℕ → ℕ
dec_if true by c = if ltb c by then 0 else c - by
dec_if false by c = c

-- The counters that an event moves, for an account that is its provider (`p`), consumer (`c`) or
-- both, with `step` the change of one counter.
unfoldable pub count :
    (Bool → ℕ → ℕ → ℕ) → EventKind → Bool → Bool → ℕ → ReputationAggregate → ReputationAggregate
count step EventKind.lease_accepted p c d a = record a {
  leases_accepted_as_provider = step p 1 a.leases_accepted_as_provider;
  leases_accepted_as_consumer = step c 1 a.leases_accepted_as_consumer;
}
count step EventKind.lease_settled p c d a = record a {
  leases_settled_as_provider = step p 1 a.leases_settled_as_provider;
  lease_hours_settled_as_provider = step p d a.lease_hours_settled_as_provider;
  leases_settled_as_consumer = step c 1 a.leases_settled_as_consumer;
  lease_hours_settled_as_consumer = step c d a.lease_hours_settled_as_consumer;
}
count step EventKind.lease_cancelled p c d a = record a {
  leases_cancelled_as_consumer = step c 1 a.leases_cancelled_as_consumer;
}
count step EventKind.lease_unfulfilled p c d a = record a {
  leases_unfulfilled_as_provider = step p 1 a.leases_unfulfilled_as_provider;
  leases_unfulfilled_as_consumer = step c 1 a.leases_unfulfilled_as_consumer;
}

abbrev is_zero_ℤ : ℤ → Bool
is_zero_ℤ (pos n) = n == 0
is_zero_ℤ (negsuc n) = false

unfoldable pub touch : ℤ → ReputationAggregate → ReputationAggregate
touch t a = record a {
  first_activity_at =
      if is_zero_ℤ a.first_activity_at || ltb_ℤ t a.first_activity_at
      then t
      else a.first_activity_at;
  last_activity_at = if ltb_ℤ a.last_activity_at t then t else a.last_activity_at;
}

unfoldable pub apply_reputation_delta :
    ReputationAggregate → String → ReputationEvent → ReputationAggregate
apply_reputation_delta a account ev =
    let is_provider = str_eq account ev.provider in
    let is_consumer = str_eq account ev.consumer in
    if str_eq account ""
    then a
    else if not is_provider && not is_consumer
    then a
    else touch ev.timestamp (count inc_if ev.kind is_provider is_consumer ev.duration_secs a)

unfoldable pub revert_reputation_delta :
    ReputationAggregate → String → ReputationEvent → ReputationAggregate
revert_reputation_delta a account ev =
    let is_provider = str_eq account ev.provider in
    let is_consumer = str_eq account ev.consumer in
    if str_eq account ""
    then a
    else if not is_provider && not is_consumer
    then a
    else count dec_if ev.kind is_provider is_consumer ev.duration_secs a

unfoldable pub has_no_counters : ReputationAggregate → Bool
has_no_counters a =
    a.leases_accepted_as_provider == 0
    && a.leases_settled_as_provider == 0
    && a.lease_hours_settled_as_provider == 0
    && a.leases_unfulfilled_as_provider == 0
    && a.leases_accepted_as_consumer == 0
    && a.leases_settled_as_consumer == 0
    && a.leases_cancelled_as_consumer == 0
    && a.lease_hours_settled_as_consumer == 0
    && a.leases_unfulfilled_as_consumer == 0

unfoldable pub affected_accounts : ReputationEvent → List String
affected_accounts ev =
    let consumers =
      if not (str_eq ev.consumer "") && not (str_eq ev.consumer ev.provider)
      then ev.consumer ∷ []
      else [] in
    if not (str_eq ev.provider "") then ev.provider ∷ consumers else consumers

abbrev pub Engine : Type 0
Engine = Map ReputationAggregate

unfoldable pub apply_one : ReputationEvent → String → Engine → Engine
apply_one ev acc e = elim (lookup acc e) [
  | none ↦ insert acc (apply_reputation_delta new_reputation_aggregate acc ev) e
  | some a ↦ insert acc (apply_reputation_delta a acc ev) e
]

unfoldable pub revert_one : ReputationEvent → String → Engine → Engine
revert_one ev acc e = elim (lookup acc e) [
  | none ↦ e
  | some a ↦
      if has_no_counters (revert_reputation_delta a acc ev)
      then delete acc e
      else insert acc (revert_reputation_delta a acc ev) e
]

abbrev each : (String → Engine → Engine) → List String → Engine → Engine
each f [] e = e
each f (acc ∷ rest) e = each f rest (f acc e)

-- `ReputationEngine.Apply` and `Revert`.
unfoldable pub apply : ReputationEvent → Engine → Engine
apply ev e = each (apply_one ev) (affected_accounts ev) e

unfoldable pub revert : ReputationEvent → Engine → Engine
revert ev e = each (revert_one ev) (affected_accounts ev) e
