-- ===== src/NativeWrite/Commit/Steps.antt =====
-- The steps of a transaction of a charge current, from its comparison of the currents to its end.
use ha_spark.Prelude.{
  inl, str_eq, Option, ℕ, String, Bool, true, false, not, none, some, [], ◌∷◌, ◌==◌, if◌then◌else◌,
  arith, ◌≡◌, refl, ap, ◌∙◌, inr, if_both, if_else, eq_iff,
}
use ha_spark.Float.{Float}
use ha_spark.NativeSlots.{Outcome}
use ha_spark.NativeSlots.{applied, unchanged, refused, unverified, failed}
use ha_spark.NativeVerify.{confirm}
use ha_spark.NativeVerify.Confirm.{confirm_lem}
use ha_spark.NativeWrite.{refusal, WriteReason, untrusted_soc}
use ha_spark.NativeWrite.Commit.{
  current_word, CommitBus, CommitOptions, CurrentWrite, Boundary, IntentResult, put, reader, forget,
  remember, note, refuse, fail, untrusted, settle, write_current, correct_zero, compare_current,
}
use ha_spark.NativeWrite.Commit.Promise.{
  Reads, here, Reads-trans, Unwritten, Kept, entry, seen_of, reader_laws, ReadBack, Written, Wrote,
  OutcomeOk, Others, CommitOk,
}

-- A property of a refusal and of what else happens holds of both.
pub refused_or {ℓ κ} :
    {A : Type ℓ} (P : A → Type κ) (o : Option WriteReason) (x : WriteReason → A) (y : A)
    → ((r : WriteReason) → o ≡ some r → P (x r))
    → (o ≡ none → P y)
    → P (elim o [ some r ↦ x r | none ↦ y ])
refused_or P none x y hx hy = hy refl
refused_or P (some r) x y hx hy = hx r refl

put_same {ℓ} : {A : Type ℓ} (key : String) (a : A) (map : String → A) → put key a map key ≡ a
put_same key a map = ground (arith, (eq_iff key key).1 refl)

put_other {ℓ} :
    {A : Type ℓ} (key other : String) (a : A) (map : String → A)
    → str_eq key other ≡ false
    → put key a map other ≡ map other
put_other key other a map h = ground (arith, h)

module _ {ℓ} {W F : Type ℓ} ⦃f : Float F⦄ (floor_6 : F → ℕ) (bus : CommitBus W) where
  pub refuse_ok :
      (o : CommitOptions) (epoch : ℕ) (device : String) (current : F) (resident : ℕ)
      (s : Boundary W F) (r : WriteReason)
      → CommitOk floor_6 bus o epoch device current resident s (s, refuse r)
  refuse_ok o epoch device current resident s r = (((refl, here), refl, refl), λ other h. refl)

  Written-later :
      (o : CommitOptions) (epoch : ℕ) (device : String) (current : F) (resident : ℕ)
      (s t u : Boundary W F)
      → Written floor_6 bus o epoch device current resident s t
      → u.writes ≡ t.writes
      → Reads floor_6 bus t.world u.world
      → Written floor_6 bus o epoch device current resident s u
  Written-later o epoch device current resident s t u h e p = record {
    came = h.came;
    went = Reads-trans floor_6 bus h.went p;
    write = h.write;
    added = e ∙ h.added;
    device_of = h.device_of;
    resident_of = h.resident_of;
    target_of = h.target_of;
    permitted = h.permitted;
    trusted = h.trusted;
  }

  -- What is remembered at the end of a transaction, of either kind.
  remembered :
      (device : String) (current : F) (t : Boundary W F)
      → (remember bus device current t).written_a device ≡ some current
  remembered device current t = put_same device (some current) t.written_a

  pub forgotten : (device : String) (t : Boundary W F) → (forget device t).written_a device ≡ none
  forgotten device t = put_same device none t.written_a

  pub Others-put :
      (device : String) (a : Option F) (s t : Boundary W F)
      → Others floor_6 bus device s t
      → (other : String) → str_eq device other ≡ false
      → put device a t.written_a other ≡ s.written_a other
  Others-put device a s t h other e = put_other device other a t.written_a e ∙ h other e

  pub Others-Kept :
      (device : String) (s t u : Boundary W F)
      → Others floor_6 bus device s t
      → Kept floor_6 bus t u
      → Others floor_6 bus device s u
  Others-Kept device s t u h k other e = ap (λ m. m other) k.written_a ∙ h other e

  -- After the write.
  settled_ok :
      (o : CommitOptions) (epoch : ℕ) (device : String) (current : F) (resident : ℕ)
      (s t : Boundary W F) (x : Boundary W F × Bool)
      → Written floor_6 bus o epoch device current resident s t
      → Others floor_6 bus device s t
      → Kept floor_6 bus t x.0
      → (x.1 ≡ true → ReadBack floor_6 bus device (current_word floor_6 current) x.0)
      → CommitOk floor_6 bus o epoch device current resident s (settle bus device true current x)
  settled_ok o epoch device current resident s t (u, true) w others k back =
      let end = remember bus device current u in
      (
        (
          Written-later o epoch device current resident s t end w k.writes k.world,
          (back refl, remembered device current u, refl),
        ),
        Others-put device (some current) s u (Others-Kept device s t u others k),
      )
  settled_ok o epoch device current resident s t (u, false) w others k back =
      let end = note device (forget device u) in
      (
        (
          inr (Written-later o epoch device current resident s t end w k.writes k.world),
          forgotten device u,
          put_same device true u.mismatches,
        ),
        Others-put device none s u (Others-Kept device s t u others k),
      )

  -- Where nothing is written.
  same_ok :
      (o : CommitOptions) (epoch : ℕ) (device : String) (current : F) (resident : ℕ)
      (s : Boundary W F) (x : Boundary W F × Bool)
      → Kept floor_6 bus s x.0
      → (x.1 ≡ true → ReadBack floor_6 bus device (current_word floor_6 current) x.0)
      → CommitOk floor_6 bus o epoch device current resident s (settle bus device false current x)
  same_ok o epoch device current resident s (u, true) k back = (
    ((k.writes, k.world), (back refl, remembered device current u, refl)),
    Others-put device (some current) s u (Others-Kept device s s u (λ other e. refl) k),
  )
  same_ok o epoch device current resident s (u, false) k back = (
    (inl (k.writes, k.world), forgotten device u, put_same device true u.mismatches),
    Others-put device none s u (Others-Kept device s s u (λ other e. refl) k),
  )

  write_ok :
      (o : CommitOptions) (epoch : ℕ) (device : String) (current : F) (resident : ℕ)
      (s : Boundary W F)
      → CommitOk floor_6 bus o epoch device current resident s
          (write_current floor_6 bus o epoch device current resident s)
  unfolding write_current
  write_ok o epoch device current resident s =
      let target = current_word floor_6 current in
      let (w, ok) = bus.write target s.world in
      let write : CurrentWrite W = record {
        device = device;
        before = s.world;
        resident = resident;
        target = target;
      } in
      let written : Boundary W F = record s {
        world = w;
        written_a = put device none s.written_a;
        writes = write ∷ s.writes;
      } in
      let back = confirm (reader bus device) true false (target ∷ []) written in
      let end = settle bus device true current back in
      let rest = if not ok then (written, fail) else end in
      let Ok : Boundary W F × IntentResult F → Type ℓ =
        CommitOk floor_6 bus o epoch device current resident s in
      let others : Others floor_6 bus device s written =
        Others-put device none s s (λ other e. refl) in
      let read_back =
        confirm_lem (reader bus device) (seen_of floor_6 bus) (entry floor_6 bus device)
          (Kept floor_6 bus) (reader_laws floor_6 bus device) true false (target ∷ []) written in
      refused_or Ok (refusal o.flags epoch (bus.conditions s.world)) (λ r. (s, refuse r))
        (if untrusted bus o resident target s.world then (s, refuse untrusted_soc) else rest)
        (λ r e. refuse_ok o epoch device current resident s r)
        (λ permitted.
          if_else Ok (untrusted bus o resident target s.world) (s, refuse untrusted_soc) rest
            (refuse_ok o epoch device current resident s untrusted_soc)
            (λ trusted.
              let one : Written floor_6 bus o epoch device current resident s written = record {
                write = write;
                added = refl;
                came = here;
                went = here;
                device_of = refl;
                resident_of = refl;
                target_of = refl;
                permitted = permitted;
                trusted = trusted;
              } in
              if_both Ok (not ok) (written, fail) end ((inr one, forgotten device s, refl), others)
                (settled_ok o epoch device current resident s written back one others read_back.0
                  read_back.1)))

  -- The same from an earlier state, with reads alone in between.
  Written-earlier :
      (o : CommitOptions) (epoch : ℕ) (device : String) (current : F) (resident : ℕ)
      (s t u : Boundary W F)
      → Unwritten floor_6 bus s t
      → Written floor_6 bus o epoch device current resident t u
      → Written floor_6 bus o epoch device current resident s u
  Written-earlier o epoch device current resident s t u (e, p) h = record {
    came = Reads-trans floor_6 bus p h.came;
    went = h.went;
    write = h.write;
    added = h.added ∙ ap (λ ws. h.write ∷ ws) e;
    device_of = h.device_of;
    resident_of = h.resident_of;
    target_of = h.target_of;
    permitted = h.permitted;
    trusted = h.trusted;
  }

  Unwritten-trans :
      (s t u : Boundary W F)
      → Unwritten floor_6 bus s t
      → Unwritten floor_6 bus t u
      → Unwritten floor_6 bus s u
  Unwritten-trans s t u (e, p) (d, q) = (d ∙ e, Reads-trans floor_6 bus p q)

  Wrote-earlier :
      (o : CommitOptions) (epoch : ℕ) (device : String) (current : F) (resident : ℕ)
      (s t u : Boundary W F)
      → Unwritten floor_6 bus s t
      → Wrote floor_6 bus o epoch device current resident t u
      → Wrote floor_6 bus o epoch device current resident s u
  Wrote-earlier o epoch device current resident s t u e (inl p) = inl (Unwritten-trans s t u e p)
  Wrote-earlier o epoch device current resident s t u e (inr w) =
      inr (Written-earlier o epoch device current resident s t u e w)

  outcome_earlier :
      (o : CommitOptions) (epoch : ℕ) (device : String) (current : F) (resident : ℕ)
      (s t u : Boundary W F) (r : IntentResult F) (outcome : Outcome)
      → Kept floor_6 bus s t
      → OutcomeOk floor_6 bus o epoch device current resident t u r outcome
      → OutcomeOk floor_6 bus o epoch device current resident s u r outcome
  outcome_earlier o epoch device current resident s t u r applied k h =
      (Written-earlier o epoch device current resident s t u (k.writes, k.world) h.0, h.1)
  outcome_earlier o epoch device current resident s t u r unchanged k h =
      (Unwritten-trans s t u (k.writes, k.world) h.0, h.1)
  outcome_earlier o epoch device current resident s t u r refused k h =
      (Unwritten-trans s t u (k.writes, k.world) h.0, h.1 ∙ ap (λ m. m device) k.written_a, h.2)
  outcome_earlier o epoch device current resident s t u r unverified k h =
      (Wrote-earlier o epoch device current resident s t u (k.writes, k.world) h.0, h.1, h.2)
  outcome_earlier o epoch device current resident s t u r failed k h =
      (Wrote-earlier o epoch device current resident s t u (k.writes, k.world) h.0, h.1, h.2)

  pub commit_earlier :
      (o : CommitOptions) (epoch : ℕ) (device : String) (current : F) (resident : ℕ)
      (s t : Boundary W F) (x : Boundary W F × IntentResult F)
      → Kept floor_6 bus s t
      → CommitOk floor_6 bus o epoch device current resident t x
      → CommitOk floor_6 bus o epoch device current resident s x
  commit_earlier o epoch device current resident s t (u, r) k h = (
    outcome_earlier o epoch device current resident s t u r r.outcome k h.0,
    λ other e. h.1 other e ∙ ap (λ m. m other) k.written_a,
  )

  correct_ok :
      (o : CommitOptions) (epoch : ℕ) (device : String) (current : F) (resident : ℕ)
      (s : Boundary W F) (x : Boundary W F × Bool)
      → Kept floor_6 bus s x.0
      → (x.1 ≡ true → ReadBack floor_6 bus device (current_word floor_6 current) x.0)
      → CommitOk floor_6 bus o epoch device current resident s
          (correct_zero floor_6 bus o epoch device current resident x)
  correct_ok o epoch device current resident s (t, true) k back =
      same_ok o epoch device current resident s (t, true) k back
  correct_ok o epoch device current resident s (t, false) k back =
      commit_earlier o epoch device current resident s t
        (write_current floor_6 bus o epoch device current resident t) k
        (write_ok o epoch device current resident t)

  pub compare_ok :
      (o : CommitOptions) (epoch : ℕ) (device : String) (current : F) (resident : ℕ)
      (s : Boundary W F)
      → CommitOk floor_6 bus o epoch device current resident s
          (compare_current floor_6 bus o epoch device current resident s)
  unfolding compare_current
  compare_ok o epoch device current resident s =
      let target = current_word floor_6 current in
      let back = confirm (reader bus device) false false (target ∷ []) s in
      let zero = correct_zero floor_6 bus o epoch device current resident back in
      let same = settle bus device false current back in
      let other = write_current floor_6 bus o epoch device current resident s in
      let Ok : Boundary W F × IntentResult F → Type ℓ =
        CommitOk floor_6 bus o epoch device current resident s in
      let read_back =
        confirm_lem (reader bus device) (seen_of floor_6 bus) (entry floor_6 bus device)
          (Kept floor_6 bus) (reader_laws floor_6 bus device) false false (target ∷ []) s in
      let resting = if target == 0 then zero else same in
      if_both Ok (untrusted bus o resident target s.world) (s, refuse untrusted_soc)
        (if not (resident == target) then other else resting)
        (refuse_ok o epoch device current resident s untrusted_soc)
        (if_both Ok (not (resident == target)) other resting
          (write_ok o epoch device current resident s)
          (if_both Ok (target == 0) zero same
            (correct_ok o epoch device current resident s back read_back.0 read_back.1)
            (same_ok o epoch device current resident s back read_back.0 read_back.1)))
