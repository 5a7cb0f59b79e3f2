-- ===== src/NativeWrite/Transaction.antt =====
-- custom_components/ha_spark/native_write.py: the transaction that moves the shares of a connection.
pub mod Order
use ha_spark.Prelude.{
  ℕ, String, Bool, true, false, not, ◌&&◌, Option, none, some, List, [], ◌∷◌, ◌++◌, str_eq,
  if◌then◌else◌, is_some, keep, map, find, or_else,
}
use ha_spark.Float.{Float, zero_f}
use ha_spark.NativeSlots.{Outcome}
use ha_spark.NativeSlots.{applied, unchanged, refused, unverified, failed}
use ha_spark.Topology.{Inverter, Topology, EffectiveLimits}
use ha_spark.Clamp.{DeviceIntent, ClampInputs, clamp_intent}
use ha_spark.NativeWrite.{WriteReason, limits, is_empty}
use ha_spark.NativeWrite.Commit.{
  CommitBus, Boundary, IntentResult, put, read, forget, refuse, fail, amps,
}

-- What the transaction asks of the guard; `allowance` is `allowance_for`.
pub record GuardView {ℓ} (F : Type ℓ) : Type ℓ where
  pub topology : Topology F
  pub effective : EffectiveLimits F
  pub last_requested_a : String → Option F
  pub allowance : String → Option F

-- A device and the current that is planned for it.
abbrev pub Planned {ℓ} : Type ℓ → Type ℓ
Planned F = String × F

-- One call of the commit, with its result.
pub record Call {ℓ} (F : Type ℓ) : Type ℓ where
  pub planned : Planned F
  pub result : IntentResult F

-- How far the loop came; `last` is its `result`.
pub record Stepped {ℓ} (W F : Type ℓ) : Type ℓ where
  pub state : Boundary W F
  pub requested : Option (IntentResult F)
  pub last : Option (IntentResult F)
  pub calls : List (Call F)

-- `outcome in ("applied", "unchanged")`
abbrev pub is_good : Outcome → Bool
is_good applied = true
is_good unchanged = true
is_good refused = false
is_good unverified = false
is_good failed = false

abbrev pub same_option : Option String → Option String → Bool
same_option (some a) (some b) = str_eq a b
same_option _ _ = false

abbrev pub newest {ℓ} : {A : Type ℓ} → Option A → Option A → Option A
newest none old = old
newest (some a) old = some a

abbrev pub bank_connection {ℓ} : {F : Type ℓ} → Topology F → String → Option String
bank_connection t bank_id = elim (find (λ b. str_eq b.id bank_id) t.banks) [
  | none ↦ none
  | some b ↦ some b.connection_id
]

-- `peers`: the other inverters of the connection with a counted request.
pub peers {ℓ} : {F : Type ℓ} → GuardView F → Inverter F → List (Inverter F)
peers g inverter =
    keep
      (λ i.
        is_some (g.last_requested_a i.id)
        && not (str_eq i.id inverter.id)
        && same_option (bank_connection g.topology i.bank_id)
            (bank_connection g.topology inverter.bank_id))
      g.topology.inverters

module _ {ℓ} {F : Type ℓ} ⦃f : Float F⦄ (quantise : F → F → F) where
  -- The clamped current of one device.
  pub clamp_device : GuardView F → Inverter F → Option (Option (DeviceIntent F))
  clamp_device g d =
      clamp_intent quantise
        (record {
          allowance_kw = g.allowance d.bank_id;
          last_requested_a = g.last_requested_a;
          topology = g.topology;
          limits = g.effective;
        })
        (record {
          inverter_id = d.id;
          bank_id = d.bank_id;
          charge_a = or_else (g.last_requested_a d.id) zero_f;
        })

  abbrev pub plan_more :
      Option (Option (DeviceIntent F))
      → Option (Option (List (Planned F)))
      → Option (Option (List (Planned F)))
  plan_more none rest = none
  plan_more (some none) rest = some none
  plan_more (some (some i)) none = none
  plan_more (some (some i)) (some none) = some none
  plan_more (some (some i)) (some (some rest)) = some (some ((i.inverter_id, i.charge_a) ∷ rest))

  -- `planned`: the outer `none` where the clamp raises, the inner one where it has no command.
  pub plan_devices : GuardView F → List (Inverter F) → Option (Option (List (Planned F)))
  plan_devices g [] = some (some [])
  plan_devices g (d ∷ ds) = plan_more (clamp_device g d) (plan_devices g ds)

module _ {ℓ} {F : Type ℓ} ⦃f : Float F⦄ where
  -- The key of the sort: the current is not below the resident one.
  abbrev pub raises : (String → Option F) → Planned F → Bool
  raises residents (device, current) = f.le (or_else (residents device) zero_f) current

  abbrev pub reductions : (String → Option F) → List (Planned F) → List (Planned F)
  reductions residents planned = keep (λ p. not (raises residents p)) planned

  -- The stable sort by that key.
  abbrev pub sort : (String → Option F) → List (Planned F) → List (Planned F)
  sort residents planned = reductions residents planned ++ keep (λ p. raises residents p) planned

module _ {ℓ} {W F : Type ℓ} ⦃f : Float F⦄ (buses : String → CommitBus W) where
  abbrev pub read_more :
      String
      → (String → Option F)
      → Boundary W F × Option ℕ
      → ((String → Option F) → Boundary W F → Boundary W F × Option (String → Option F))
      → Boundary W F × Option (String → Option F)
  read_more device start (s, none) rest = (forget device s, none)
  read_more device start (s, some resident) rest = rest (put device (some (amps resident)) start) s

  -- The fresh residents over those of `start`; `none` where one is not read.
  pub read_residents :
      List (Planned F)
      → (String → Option F)
      → Boundary W F
      → Boundary W F × Option (String → Option F)
  read_residents [] start s = (s, some start)
  read_residents ((device, current) ∷ rest) start s =
      read_more device start (read (buses device) device s) (λ more t. read_residents rest more t)

module _ {ℓ} {W F : Type ℓ} ⦃f : Float F⦄
    (commit : String → F → Boundary W F → Boundary W F × IntentResult F) where
  -- The loop over `planned`.
  unfoldable pub run : String → List (Planned F) → Boundary W F → Stepped W F
  run id [] s = record { state = s; requested = none; last = none; calls = [] }
  run id ((device, current) ∷ rest) s =
      let (t, r) = commit device current s in
      let more = run id rest t in
      let own = if str_eq device id then some r else none in
      let call : Call F = record { planned = (device, current); result = r } in
      if is_good r.outcome
      then record {
        state = more.state;
        requested = newest more.requested own;
        last = newest more.last (some r);
        calls = call ∷ more.calls;
      }
      else record { state = t; requested = own; last = some r; calls = call ∷ [] }

  -- Sorted, and run.
  unfoldable pub adjust :
      String → (String → Option F) → List (Planned F) → Boundary W F → Stepped W F
  adjust id residents planned s = run id (sort residents planned) s

-- The result, and whether the write of the device was attempted; `none` for an empty plan.
pub answer {ℓ} :
    {F : Type ℓ}
    → Option (IntentResult F)
    → Option (IntentResult F)
    → Option (IntentResult F × Bool)
answer requested none = none
answer none (some r) =
    some (record { outcome = r.outcome; reason = r.reason; written_a = none }, false)
answer (some own) (some r) = some (
  if is_good r.outcome
      then own
      else record { outcome = r.outcome; reason = r.reason; written_a = own.written_a },
  true,
)

module _ {ℓ} {W F : Type ℓ} ⦃f : Float F⦄ (quantise : F → F → F) (buses : String → CommitBus W)
    (commit : String → F → Boundary W F → Boundary W F × IntentResult F) where
  abbrev finish : Stepped W F → Boundary W F × Option (IntentResult F × Bool)
  finish x = (x.state, answer x.requested x.last)

  abbrev from_residents :
      String
      → List (Planned F)
      → Boundary W F × Option (String → Option F)
      → Boundary W F × Option (IntentResult F × Bool)
  from_residents id planned (s, none) = (s, some (fail, false))
  from_residents id planned (s, some residents) = finish (adjust commit id residents planned s)

  abbrev from_plan :
      Inverter F
      → Bool
      → Option (Option (List (Planned F)))
      → Boundary W F
      → Boundary W F × Option (IntentResult F × Bool)
  from_plan inverter has_peers none s = (s, none)
  from_plan inverter has_peers (some none) s = (s, some (refuse limits, false))
  from_plan inverter has_peers (some (some planned)) s =
      let fresh = read_residents buses planned s.written_a s in
      from_residents inverter.id planned (if has_peers then fresh else (s, some s.written_a))

  -- `_async_transaction`; the answer is `none` where it raises.
  pub transaction :
      GuardView F → Inverter F → Boundary W F → Boundary W F × Option (IntentResult F × Bool)
  transaction g inverter s =
      let others = peers g inverter in
      from_plan inverter (not (is_empty others))
        (plan_devices quantise g (others ++ (inverter ∷ []))) s
