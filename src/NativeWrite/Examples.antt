-- ===== src/NativeWrite/Examples.antt =====
-- An inverter that keeps the current that is written, and the sample site around it.
use ha_spark.Prelude.{
  false, ◌*◌, ◌+◌, ◌-◌, ◌/◌, ◌==◌, leb, String, true, List, ℕ, ◌≡◌, ◌≢◌, ◌↔◌, ◌++◌, refl, Option,
  some, none, [], ◌∷◌, All, arith, map, keep, ltb, if◌then◌else◌, str_eq,
}
use ha_spark.Float.{Float, whole}
use ha_spark.Authority.{second, AuthorityState}
use ha_spark.Authority.Samples.{site}
use ha_spark.Tripwire.{watching}
use ha_spark.Tripwire.Stop.{trip_stops}
use ha_spark.Tripwire.Expiry.{expire-Keeps, expire_saved}
use ha_spark.Tripwire.Examples.{ours, some_watched, site-IsSound}
use ha_spark.NativeSlots.{applied}
use ha_spark.NativeWrite.{plan, Conditions, refusal, export_write_reason}
use ha_spark.NativeWrite.Policy.{IsPlan, plan-refusal_iff, trip_fences}
use ha_spark.NativeWrite.Commit.{CommitBus, CommitOptions, Boundary, IntentResult, commit}
use ha_spark.NativeWrite.Commit.Once.{commit_lem, TransactionOk}
use ha_spark.NativeWrite.Commit.Lowers.{WordLaws, NotRaised, commit-NotRaised}
use ha_spark.NativeWrite.Transaction.{Planned, Call, reductions, run, adjust}
use ha_spark.NativeWrite.Transaction.Order.{plan_of, WentWell, adjust_order}

abbrev conditions : Conditions
conditions = record {
  state = some site;
  owned = true;
  ready = true;
  retrying = false;
  permits_non_protection = true;
  running = true;
  polling = true;
  closed = false;
  device_valid = true;
  boundary_open = true;
  limits_current = true;
}

plan-refusal_iff_example :
    (refusal plan 4 conditions ≡ none) ↔ ((state : AuthorityState) × IsPlan 4 conditions state)
plan-refusal_iff_example = plan-refusal_iff 4 conditions

abbrev ids : String → ℕ
ids inverter_id = 77

-- The state that a trip of the site saves.
abbrev tripped_site : AuthorityState
tripped_site =
    (trip_stops site ours ("garage" ∷ []) (2000 * second) ids site-IsSound some_watched).0

-- The same after an expiry.
abbrev expired_site : AuthorityState
expired_site = (expire_saved (2001 * second) tripped_site).0

trip_fences_example :
    All
      (λ r.
        export_write_reason "garage" 4 r.event
          (2002 * second)
          (record conditions { state = some expired_site })
        ≢ none)
      (keep
        (λ r. ltb (2002 * second) r.window.end)
        (watching (some site) ours ("garage" ∷ []) (2000 * second)))
trip_fences_example =
    trip_fences site tripped_site expired_site ours ("garage" ∷ []) (2000 * second) (2002 * second)
      ids "garage" 4 (record conditions { state = some expired_site }) site-IsSound some_watched
      (trip_stops site ours ("garage" ∷ []) (2000 * second) ids site-IsSound some_watched).1
      (expire-Keeps true true (2001 * second) (2002 * second) tripped_site expired_site
        (omega arith) (expire_saved (2001 * second) tripped_site).1)
      refl

abbrev bus : CommitBus ℕ
bus = record {
  read_input = λ w. (w, some (32 ∷ []));
  read_holding = λ w. (w, some (w ∷ []));
  write = λ target w. (target, true);
  wait = λ w. w;
  conditions = λ w. conditions;
  soc_increases = λ w. true;
  now = λ w. 1000 * second;
}

-- 12.3 A are resident.
abbrev boundary : Boundary ℕ ℕ
boundary = record {
  world = 123;
  written_a = λ id. none;
  written_at = λ id. none;
  mismatches = λ id. false;
  seen = [];
  writes = [];
}

-- Numbers of tenths, with a greatest finite one.
abbrev tenths : Float ℕ
tenths = record {
  of_nat = λ n. 10 * n;
  add = ◌+◌;
  sub = ◌-◌;
  mul = λ a b. (a * b) / 10;
  div = λ a b. (10 * a) / b;
  negate = λ n. 0;
  abs = λ n. n;
  lt = ltb;
  le = leb;
  eq = ◌==◌;
  is_finite = λ n. leb n 1000000;
}

abbrev floor_tenths : ℕ → ℕ
floor_tenths n = n / 10

abbrev options : CommitOptions
options = record { soc_required = false; soc_exempt = false; lower_only = false; flags = plan }

commit_lem_example :
    TransactionOk ⦃f = tenths⦄ floor_tenths bus options 4 "garage" 125 boundary
      (commit ⦃f = tenths⦄ floor_tenths bus options 4 "garage" 125 boundary)
commit_lem_example = commit_lem ⦃f = tenths⦄ floor_tenths bus options 4 "garage" 125 boundary

abbrev cut : CommitOptions
cut = record { soc_required = false; soc_exempt = false; lower_only = true; flags = plan }

word_laws : WordLaws ⦃f = tenths⦄ floor_tenths
word_laws = record {
  finite_amps = λ resident h. ground (arith, h);
  amps_bound = λ resident h. ground (arith, h);
  word_mono = λ a b h k l m. ground (arith, l);
  word_amps = λ resident h. ground arith;
}

commit-NotRaised_example :
    NotRaised ⦃f = tenths⦄ floor_tenths bus boundary
      (commit ⦃f = tenths⦄ floor_tenths bus cut 4 "garage" 115 boundary).0
commit-NotRaised_example =
    commit-NotRaised ⦃f = tenths⦄ floor_tenths bus word_laws cut 4 "garage" 115 boundary refl refl

-- The peer goes from 30 A to 10 A before the device goes from 5 A to 20 A.
abbrev residents : String → Option ℕ
residents id = if str_eq id "peer" then some 30 else some 5

abbrev answers : String → ℕ → Boundary ℕ ℕ → Boundary ℕ ℕ × IntentResult ℕ
answers id current s = (s, record { outcome = applied; reason = none; written_a = some current })

abbrev called : String → ℕ → Call ℕ
called id current = record {
  planned = (id, current);
  result = record { outcome = applied; reason = none; written_a = some current };
}

abbrev planned : List (Planned ℕ)
planned = ("garage", 20) ∷ ("peer", 10) ∷ []

reduces_first :
    (adjust answers "garage" residents planned boundary).calls
    ≡ (called "peer" 10 ∷ []) ++ (called "garage" 20 ∷ [])
unfolding adjust run
reduces_first = refl

adjust_order_example :
    WentWell (called "peer" 10 ∷ [])
    × ((more : List (Planned ℕ)) × (map plan_of (called "peer" 10 ∷ [])
          ≡ reductions residents planned ++ more))
adjust_order_example =
    adjust_order answers "garage" residents planned boundary (called "peer" 10 ∷ []) []
      (called "garage" 20) reduces_first refl
