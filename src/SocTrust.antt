-- ===== src/SocTrust.antt =====
-- custom_components/ha_spark/soc_trust.py: whether the state of charge of a bank may be relied on. A
-- value is a Python float; its conversion from an object is done before, and may have failed.
pub mod Blocked
pub mod History
pub mod Sound
use ha_spark.Prelude.{
  ℕ, suc, ◌+◌, ◌-◌, ◌*◌, ◌/◌, Bool, true, false, not, ◌&&◌, ◌||◌, Option, none, some, ltb, leb,
  ◌==◌, if◌then◌else◌, is_some,
}
use ha_spark.Float.{Float, zero_f}
use ha_spark.Authority.{Instant, second}
use ha_spark.Tripwire.{Stamp, aware, naive}

pub data SocStatus : Type 0 where
  ok implausible read_failed unavailable malformed not_finite out_of_range : SocStatus
  report_time_unusable report_time_future stale : SocStatus

pub data Trust : Type 0 where
  trusted untrusted recovering : Trust

-- `None`, an object that is no number or text, or what `float` makes of it.
pub data Value {ℓ} (F : Type ℓ) : Type ℓ where
  absent unfit : Value F
  parsed : Option F → Value F

-- `soc_max_report_age_minutes` as a timedelta, and the two counts.
pub record Policy : Type 0 where
  pub max_age : ℕ
  pub failure_threshold : ℕ
  pub recovery_minutes : ℕ

pub record BankTrust {ℓ} (F : Type ℓ) : Type ℓ where
  pub value : Option F
  pub read_at : Option Instant
  pub trust : Trust
  pub reason : SocStatus

abbrev pub is_ok : SocStatus → Bool
is_ok ok = true
is_ok _ = false

abbrev pub is_trusted : Trust → Bool
is_trusted trusted = true
is_trusted _ = false

abbrev pub minute_length : ℕ
minute_length = 60 * second

abbrev pub minute_of : Instant → ℕ
minute_of now = now / minute_length

abbrev pub instant_of : Option Stamp → Option Instant
instant_of none = none
instant_of (some naive) = none
instant_of (some (aware t)) = some t

-- The fields of `SocMonitor` that judge a read.
pub record Evidence {ℓ} (F : Type ℓ) : Type ℓ where
  pub read_at : Option Instant
  pub baseline : Option F
  pub energy : F
  pub power_at : Option Instant
  pub power : Option F
  pub rejected : Option F

-- The fields that block increases, and let them again.
pub record Recovery : Type 0 where
  pub failures : ℕ
  pub blocked : Bool
  pub since : Option Instant
  pub recovery_read : Option Instant
  pub recovery_minute : Option ℕ
  pub recovery_ready : Bool

pub record SocMonitor {ℓ} (F : Type ℓ) : Type ℓ where
  pub policy : Policy
  pub view : BankTrust F
  pub minute : Option ℕ
  pub minute_failed : Bool
  pub evidence : Evidence F
  pub recovery : Recovery

-- The arguments of `observe`.
pub record Observation {ℓ} (F : Type ℓ) : Type ℓ where
  pub value : Value F
  pub read_at : Option Stamp
  pub now : Instant
  pub power_w : Option F
  pub capacity_kwh : F
  pub valid : Bool
  pub fallback_active : Bool
  pub count : Bool

-- `_reset_recovery`
abbrev pub reset_recovery : Recovery → Recovery
reset_recovery r = record r {
  since = none;
  recovery_read = none;
  recovery_minute = none;
  recovery_ready = false;
}

-- `_fail`
abbrev pub fail : Policy → Bool → Recovery → Recovery
fail policy count r =
    let failures = suc r.failures in
    let counted = record r {
      failures = failures;
      blocked = r.blocked || leb policy.failure_threshold failures;
    } in
    reset_recovery (if count then counted else r)

abbrev pub is_later : Option Instant → Option Instant → Bool
is_later none old = false
is_later (some t) none = true
is_later (some t) (some u) = ltb u t

abbrev pub in_sequence : Option ℕ → ℕ → Bool
in_sequence none minute = true
in_sequence (some m) minute = suc m == minute

-- The read is no newer than the one before it in this recovery.
abbrev pub no_newer : Option Instant → Option Instant → Bool
no_newer (some read) (some old) = leb read old
no_newer _ _ = false

abbrev pub or_now : Option Instant → Instant → Instant
or_now none now = now
or_now (some t) now = t

-- The recovery, if it goes on.
abbrev pub continued : Bool → Option Instant → ℕ → Recovery → Recovery
continued fresh read minute r =
    if not fresh || not (in_sequence r.recovery_minute minute) || no_newer read r.recovery_read
    then reset_recovery r
    else r

abbrev pub advanced : Policy → Bool → Option Instant → Instant → Recovery → Recovery
advanced policy fresh read now r =
    let since = or_now r.since now in
    let next = record r {
      since = some since;
      recovery_read = read;
      recovery_minute = some (minute_of now);
      recovery_ready = leb (since + policy.recovery_minutes * minute_length) now;
    } in
    if fresh then next else r

abbrev pub accepted : Recovery → Recovery
accepted r = reset_recovery (record r { blocked = false; failures = 0 })

-- The time of a read, and then its age.
pub judge_time : ℕ → Instant → Option Instant → Bool → SocStatus
judge_time max_age now none implausible' = report_time_unusable
judge_time max_age now (some read) implausible' =
    if ltb now read
    then report_time_future
    else if implausible'
    then implausible
    else if ltb (read + max_age) now
    then stale
    else ok

abbrev pub trust_of : SocStatus → Trust
trust_of ok = trusted
trust_of _ = untrusted

abbrev pub same_minute : Option ℕ → ℕ → Bool
same_minute none minute = false
same_minute (some m) minute = m == minute

module _ {ℓ} {F : Type ℓ} ⦃f : Float F⦄ where
  -- A passing verdict on a bank that is blocked.
  pub recover : Policy → Bool → Observation F → BankTrust F → Recovery → Recovery × BankTrust F
  recover policy fresh o result r =
      let read = instant_of o.read_at in
      let next = advanced policy fresh read o.now (continued fresh read (minute_of o.now) r) in
      if next.recovery_ready && not o.fallback_active
      then (accepted next, result)
      else (next, record result { trust = recovering; reason = ok })

  -- What follows from a verdict.
  pub settle : Policy → Bool → Observation F → BankTrust F → Recovery → Recovery × BankTrust F
  settle policy fresh o result r =
      let next = recover policy fresh o result r in
      if not (is_ok result.reason)
      then (fail policy o.count r, result)
      else if not r.blocked
      then (record r { failures = 0 }, result)
      else next

  abbrev hundred : F
  hundred = f.of_nat 100

  -- The number of a value, or why there is none.
  abbrev pub parse : Value F → SocStatus × Option F
  parse absent = (unavailable, none)
  parse unfit = (malformed, none)
  parse (parsed none) = (malformed, none)
  parse (parsed (some x)) =
      if not (f.is_finite x)
      then (not_finite, none)
      else if not (f.le zero_f x && f.le x hundred)
      then (out_of_range, none)
      else (ok, some x)

  -- A change that the energy does not explain, or none where it should show.
  pub is_implausible : F → Option F → Option F → F → Bool
  is_implausible x none energy capacity = false
  is_implausible x (some b) none capacity = false
  is_implausible x (some b) (some energy) capacity =
      let delta = f.abs (f.sub x b) in
      let explained = f.mul (f.div energy capacity) hundred in
      (f.is_finite energy && f.le zero_f energy && f.is_finite capacity && f.lt zero_f capacity)
      && (f.lt (f.add explained (f.of_nat 2)) delta
          || (f.eq delta zero_f && f.lt (f.of_nat 2) explained))

  abbrev pub judged : SocStatus → Option F → Option Instant → BankTrust F
  judged reason x read = record {
    value = x;
    read_at = read;
    trust = trust_of reason;
    reason = reason;
  }

  abbrev pub status_of :
      ℕ → Instant → Option F → Option F → F → Option Instant → SocStatus × Option F → SocStatus
  status_of max_age now baseline energy capacity read (ok, some x) =
      judge_time max_age now read (is_implausible x baseline energy capacity)
  status_of max_age now baseline energy capacity read (reason, x) = reason

  pub check_soc : Value F → Option Instant → Instant → ℕ → Option F → Option F → F → BankTrust F
  unfolding judge_time is_implausible
  check_soc value read now max_age baseline energy capacity =
      let number = parse value in
      judged (status_of max_age now baseline energy capacity read number) number.1 read

  abbrev pub finite : Option F → Option F
  finite none = none
  finite (some p) = if f.is_finite p then some p else none

  -- `!=` of two values that may be `None`.
  abbrev differs : Option F → Option F → Bool
  differs none none = false
  differs (some a) (some b) = not (f.eq a b)
  differs _ _ = true

  -- The energy since the last power reading, by the trapezoid rule.
  abbrev integrated : Instant → Option F → Evidence F → F
  integrated now none e = e.energy
  integrated now (some p) e = elim e.power_at [
    | none ↦ e.energy
    | some at ↦ (elim e.power [
      | none ↦ e.energy
      | some q ↦
          let mean = f.div (f.add (f.abs q) (f.abs p)) (f.of_nat 2) in
          let elapsed = f.div (f.of_nat (now - at)) (f.of_nat 1_000_000) in
          f.add e.energy (f.div (f.mul mean elapsed) (f.of_nat 3_600_000))
    ])
  ]

  abbrev pub is_implausible_change : BankTrust F → Option F → Bool
  is_implausible_change r baseline = elim r.reason [
    | implausible ↦ differs r.value baseline
    | _ ↦ false
  ]

  -- A newer read: it may confirm a value that was rejected before, and it moves the baseline.
  pub judge_fresh : ℕ → Observation F → Evidence F → Evidence F × BankTrust F
  judge_fresh max_age o e =
      let power = finite o.power_w in
      let energy = integrated o.now power e in
      let read = instant_of o.read_at in
      let first =
        check_soc o.value read o.now max_age e.baseline
          (elim power [ none ↦ none | some p ↦ some energy ]) o.capacity_kwh in
      let again = check_soc o.value read o.now max_age none none zero_f in
      let change = is_implausible_change first e.baseline in
      let result = if change && not (differs first.value e.rejected) then again else first in
      let rejected = if change && not (is_ok result.reason) then result.value else none in
      let moved = is_ok result.reason && differs result.value e.baseline in
      (
        record {
          read_at = read;
          baseline = if moved then result.value else e.baseline;
          energy = if moved then zero_f else energy;
          power_at = some o.now;
          power = power;
          rejected = rejected;
        },
        result,
      )

  abbrev pub kept_value : Option F → Value F
  kept_value none = absent
  kept_value (some x) = parsed (some x)

  -- No newer read: the last one, which ages.
  pub judge_kept : ℕ → Observation F → BankTrust F → Evidence F → Evidence F × BankTrust F
  judge_kept max_age o view e =
      let result = check_soc (kept_value view.value) view.read_at o.now max_age none none zero_f in
      let still =
        if is_ok result.reason && not (is_ok view.reason)
        then judged view.reason result.value result.read_at
        else result in
      let broken = record e { rejected = none; power_at = some o.now; power = none } in
      ((if is_some o.power_w then record e { rejected = none } else broken), still)

  abbrev pub lost : BankTrust F → BankTrust F
  lost r = record r { trust = untrusted; reason = read_failed }

  -- The first observation of a minute.
  pub observe_minute : Observation F → SocMonitor F → SocMonitor F
  observe_minute o m =
      let fresh = is_later (instant_of o.read_at) m.evidence.read_at in
      let newer = judge_fresh m.policy.max_age o m.evidence in
      let older = judge_kept m.policy.max_age o m.view m.evidence in
      let (evidence, judgement) = if fresh then newer else older in
      let result = if o.valid then judgement else lost judgement in
      let (recovery, view) = settle m.policy fresh o result m.recovery in
      record m {
        view = view;
        minute = some (minute_of o.now);
        minute_failed = not (is_ok result.reason);
        evidence = evidence;
        recovery = recovery;
      }

  -- A further observation of a minute: only a lost validation counts.
  pub observe_again : Observation F → SocMonitor F → SocMonitor F
  observe_again o m =
      let held = record m.view { trust = recovering; reason = ok } in
      let view = if o.fallback_active && is_trusted m.view.trust then held else m.view in
      let failed = record m {
        view = lost view;
        minute_failed = true;
        evidence = record m.evidence { rejected = none };
        recovery = fail m.policy o.count m.recovery;
      } in
      if o.valid
      then record m { view = view }
      else if m.minute_failed
      then record m { view = lost view }
      else failed

  pub observe : Observation F → SocMonitor F → SocMonitor F
  observe o m =
      let blocked = record m { recovery = record m.recovery { blocked = true } } in
      let from = if o.fallback_active then blocked else m in
      let again = observe_again o from in
      let first = observe_minute o from in
      if same_minute m.minute (minute_of o.now) then again else first

  -- `fallback_requested` and `increases_allowed`
  abbrev pub fallback_requested : SocMonitor F → Bool
  fallback_requested m = m.recovery.blocked && not m.recovery.recovery_ready

  abbrev pub increases_allowed : SocMonitor F → Bool
  increases_allowed m = is_trusted m.view.trust

  -- `__init__`
  abbrev pub new_monitor : Policy → SocMonitor F
  new_monitor policy = record {
    policy = policy;
    view = record { value = none; read_at = none; trust = untrusted; reason = unavailable };
    minute = none;
    minute_failed = false;
    evidence = record {
      read_at = none;
      baseline = none;
      energy = zero_f;
      power_at = none;
      power = none;
      rejected = none;
    };
    recovery = record {
      failures = 0;
      blocked = false;
      since = none;
      recovery_read = none;
      recovery_minute = none;
      recovery_ready = false;
    };
  }
