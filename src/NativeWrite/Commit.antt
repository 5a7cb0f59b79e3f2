-- ===== src/NativeWrite/Commit.antt =====
-- custom_components/ha_spark/native_write.py: the transaction of one charge current. The inverter, and
-- all that other code decides while a call waits, are a world that the call steps through.
pub mod Promise
pub mod Steps
pub mod Once
pub mod Lowers
use ha_spark.Prelude.{
  ℕ, ◌*◌, ◌/◌, ◌%◌, String, Bool, true, false, not, ◌&&◌, ◌||◌, Option, none, some, List, [], ◌∷◌,
  ltb, ◌==◌, str_eq, if◌then◌else◌, length,
}
use ha_spark.Float.{Float, min_f, max_f, zero_f}
use ha_spark.Authority.{Instant}
use ha_spark.NativeSlots.{Words, Outcome, valid_words}
use ha_spark.NativeSlots.{applied, unchanged, refused, unverified, failed}
use ha_spark.NativeVerify.{Reader, confirm}
use ha_spark.NativeWrite.{
  WriteReason, grid_charge_not_permitted, untrusted_soc, Flags, Conditions, refusal,
}

-- What a call asks of the world, for one inverter. `soc_increases` is that there is an SoC monitor
-- which allows increases on the bank; a read gives `none` for a transport error.
pub record CommitBus {ℓ} (W : Type ℓ) : Type ℓ where
  pub read_input : W → W × Option Words
  pub read_holding : W → W × Option Words
  pub write : ℕ → W → W × Bool
  pub wait : W → W
  pub conditions : W → Conditions
  pub soc_increases : W → Bool
  pub now : W → Instant

-- The keywords of `_async_commit`.
pub record CommitOptions : Type 0 where
  pub soc_required : Bool
  pub soc_exempt : Bool
  pub lower_only : Bool
  pub flags : Flags

-- A write, with the world before it and the current that was read just before.
pub record CurrentWrite {ℓ} (W : Type ℓ) : Type ℓ where
  pub device : String
  pub before : W
  pub resident : ℕ
  pub target : ℕ

-- The world and `NativeChargeBoundary`, with the reads and writes of currents, newest first.
pub record Boundary {ℓ} (W F : Type ℓ) : Type ℓ where
  pub world : W
  pub written_a : String → Option F
  pub written_at : String → Option Instant
  pub mismatches : String → Bool
  pub seen : List (String × Option Words)
  pub writes : List (CurrentWrite W)

-- `IntentResult`
pub record IntentResult {ℓ} (F : Type ℓ) : Type ℓ where
  pub outcome : Outcome
  pub reason : Option WriteReason
  pub written_a : Option F

-- A `dict` after an assignment, or after `pop` where the value is `none`.
abbrev pub put {ℓ} : {A : Type ℓ} → String → A → (String → A) → String → A
put key value map other = if str_eq key other then value else map other

-- The registers that `_read` accepts.
abbrev pub one_word : Option Words → Option ℕ
one_word none = none
one_word (some (v ∷ [])) = if valid_words (v ∷ []) then some v else none
one_word (some _) = none

-- `[value] if value is not None else None`
abbrev pub as_words : Option ℕ → Option Words
as_words none = none
as_words (some v) = some (v ∷ [])

-- `permission & 32`
abbrev pub permits_grid_charge : ℕ → Bool
permits_grid_charge word = (word / 32) % 2 == 1

module _ {ℓ} {W F : Type ℓ} where
  abbrev pub note : String → Boundary W F → Boundary W F
  note device s = record s { mismatches = put device true s.mismatches }

  abbrev pub forget : String → Boundary W F → Boundary W F
  forget device s = record s { written_a = put device none s.written_a }

module _ {ℓ} {F : Type ℓ} where
  abbrev pub refuse : WriteReason → IntentResult F
  refuse r = record { outcome = refused; reason = some r; written_a = none }

  abbrev pub fail : IntentResult F
  fail = record { outcome = failed; reason = none; written_a = none }

module _ {ℓ} {F : Type ℓ} ⦃f : Float F⦄ where
  -- `resident / 10`
  abbrev pub amps : ℕ → F
  amps resident = f.div (f.of_nat resident) (f.of_nat 10)

  -- `current_word`; `floor_6` is `floor(round(_, 6))`.
  abbrev pub current_word : (F → ℕ) → F → ℕ
  current_word floor_6 current = floor_6 (f.mul (max_f current zero_f) (f.of_nat 10))

-- `untrusted`
abbrev pub untrusted {ℓ} : {W : Type ℓ} → CommitBus W → CommitOptions → ℕ → ℕ → W → Bool
untrusted bus o resident target w =
    not o.soc_exempt && (ltb resident target || o.soc_required) && not (bus.soc_increases w)

module _ {ℓ} {W F : Type ℓ} (bus : CommitBus W) where
  -- `_read` of the charge current.
  pub read : String → Boundary W F → Boundary W F × Option ℕ
  read device s =
      let (w, words) = bus.read_holding s.world in
      let value = one_word words in
      (record s { world = w; seen = (device, as_words value) ∷ s.seen }, value)

  -- `_read` of the permission for grid charge.
  pub read_permission : Boundary W F → Boundary W F × Option ℕ
  read_permission s =
      let (w, words) = bus.read_input s.world in (record s { world = w }, one_word words)

  abbrev pub read_words : String → Boundary W F → Boundary W F × Option Words
  read_words device s = ((read device s).0, as_words (read device s).1)

  abbrev pub reader : String → Reader (Boundary W F)
  reader device = record {
    read = read_words device;
    sleep = λ s. record s { world = bus.wait s.world };
    mismatch = note device;
  }

  -- The write of a current, noted, with what is remembered of the device dropped.
  abbrev pub send : String → ℕ → ℕ → Boundary W F → Boundary W F × Bool
  send device resident target s =
      let (w, ok) = bus.write target s.world in
      let write : CurrentWrite W = record {
        device = device;
        before = s.world;
        resident = resident;
        target = target;
      } in
      (
        record s { world = w; written_a = put device none s.written_a; writes = write ∷ s.writes },
        ok,
      )

  abbrev pub remember : String → F → Boundary W F → Boundary W F
  remember device current s = record s {
    written_a = put device (some current) s.written_a;
    written_at = put device (some (bus.now s.world)) s.written_at;
  }

  -- The end of `_async_commit`, after its read-back.
  abbrev pub settle : String → Bool → F → Boundary W F × Bool → Boundary W F × IntentResult F
  settle device changed current (s, true) = (
    remember device current s,
    record {
      outcome = if changed then applied else unchanged;
      reason = none;
      written_a = some current;
    },
  )
  settle device changed current (s, false) = (
    note device (forget device s),
    record {
      outcome = unverified;
      reason = none;
      written_a = if changed then some current else none;
    },
  )

module _ {ℓ} {W F : Type ℓ} ⦃f : Float F⦄ (floor_6 : F → ℕ) (bus : CommitBus W) where
  -- Under `if changed:`, and the end.
  pub write_current :
      CommitOptions → ℕ → String → F → ℕ → Boundary W F → Boundary W F × IntentResult F
  write_current o epoch device current resident s =
      let target = current_word floor_6 current in
      let (written, ok) = send bus device resident target s in
      let end =
        settle bus device true current
          (confirm (reader bus device) true false (target ∷ []) written) in
      elim (refusal o.flags epoch (bus.conditions s.world)) [
        | some r ↦ (s, refuse r)
        | none ↦
            if untrusted bus o resident target s.world
            then (s, refuse untrusted_soc)
            else if not ok
            then (written, fail)
            else end
      ]

  -- The read-back of a zero that is resident already.
  abbrev pub correct_zero :
      CommitOptions → ℕ → String → F → ℕ → Boundary W F × Bool → Boundary W F × IntentResult F
  correct_zero o epoch device current resident (s, true) = settle bus device false current (s, true)
  correct_zero o epoch device current resident (s, false) =
      write_current o epoch device current resident s

  -- From the comparison with the resident current on.
  pub compare_current :
      CommitOptions → ℕ → String → F → ℕ → Boundary W F → Boundary W F × IntentResult F
  compare_current o epoch device current resident s =
      let target = current_word floor_6 current in
      let zero =
        correct_zero o epoch device current resident
          (confirm (reader bus device) false false (target ∷ []) s) in
      let same =
        settle bus device false current (confirm (reader bus device) false false (target ∷ []) s) in
      let other = write_current o epoch device current resident s in
      if untrusted bus o resident target s.world
      then (s, refuse untrusted_soc)
      else if not (resident == target)
      then other
      else if target == 0
      then zero
      else same

  abbrev pub on_resident :
      CommitOptions → ℕ → String → F → Boundary W F × Option ℕ → Boundary W F × IntentResult F
  on_resident o epoch device current (s, none) = (forget device s, fail)
  on_resident o epoch device current (s, some resident) =
      compare_current o epoch device
        (if o.lower_only then min_f current (amps resident) else current) resident s

  abbrev pub on_permission :
      CommitOptions → ℕ → String → F → Boundary W F × Option ℕ → Boundary W F × IntentResult F
  on_permission o epoch device current (s, none) = (s, refuse grid_charge_not_permitted)
  on_permission o epoch device current (s, some word) =
      let rest = on_resident o epoch device current (read bus device s) in
      if permits_grid_charge word then rest else (s, refuse grid_charge_not_permitted)

  -- `_async_commit`
  pub commit : CommitOptions → ℕ → String → F → Boundary W F → Boundary W F × IntentResult F
  commit o epoch device current s =
      let rest = on_permission o epoch device current (read_permission bus s) in
      elim (refusal o.flags epoch (bus.conditions s.world)) [ some r ↦ (s, refuse r) | none ↦ rest ]
