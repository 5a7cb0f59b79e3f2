-- ===== src/NativeWrite/Transaction/Order.antt =====
-- The order of a transaction: no increase before every reduction has gone well.
use ha_spark.Prelude.{
  ◌∙◌, ◌∷◌, String, List, Bool, true, false, not, Option, [], ◌++◌, keep, map, arith, ◌≡◌, refl,
  sym, ap, inl, inr, Bool-cases, All,
}
use mathlib.Core.Path.{subst}
use ha_spark.Float.{Float}
use ha_spark.NativeWrite.Commit.{Boundary, IntentResult}
use ha_spark.NativeWrite.Transaction.{Planned, Call, is_good, raises, reductions, sort, run, adjust}

module _ {ℓ} {A : Type ℓ} where
  head_or : A → List A → A
  head_or d [] = d
  head_or d (x ∷ xs) = x

  tail_of : List A → List A
  tail_of [] = []
  tail_of (x ∷ xs) = xs

  cons_head : (x y : A) (xs ys : List A) → x ∷ xs ≡ y ∷ ys → x ≡ y
  unfolding head_or
  cons_head x y xs ys e = ap (head_or x) e

  cons_tail : (x y : A) (xs ys : List A) → x ∷ xs ≡ y ∷ ys → xs ≡ ys
  unfolding tail_of
  cons_tail x y xs ys e = ap tail_of e

  -- An element that fails the test stands behind all that begin a list and pass it.
  behind :
      (p : A → Bool) (passing others before after : List A) (x : A)
      → All (λ y. p y ≡ true) passing
      → p x ≡ false
      → before ++ (x ∷ after) ≡ passing ++ others
      → (more : List A) × (before ≡ passing ++ more)
  behind p [] others before after x h fails e = (before, refl)
  behind p (y ∷ passing) others [] after x h fails e =
      ground (arith, h.0, fails, ap p (cons_head x y after (passing ++ others) e))
  behind p (y ∷ passing) others (b ∷ before) after x h fails e =
      let (more, e') =
        behind p passing others before after x h.1 fails
          (cons_tail b y (before ++ (x ∷ after)) (passing ++ others) e) in
      (
        more,
        ap (λ z. z ∷ before) (cons_head b y (before ++ (x ∷ after)) (passing ++ others) e)
            ∙ ap (λ ys. y ∷ ys) e',
      )

  not_last : (xs ys : List A) (x : A) → [] ≡ xs ++ (x ∷ ys) → ⊥
  not_last [] ys x e = ground (arith, e)
  not_last (z ∷ xs) ys x e = ground (arith, e)

  append_assoc : (xs ys zs : List A) → (xs ++ ys) ++ zs ≡ xs ++ (ys ++ zs)
  append_assoc [] ys zs = refl
  append_assoc (x ∷ xs) ys zs = ap (λ l. x ∷ l) (append_assoc xs ys zs)

  keep_passes : (p : A → Bool) (xs : List A) → All (λ y. p y ≡ true) (keep p xs)
  keep_passes p [] = tt
  keep_passes p (x ∷ xs) = elim (Bool-cases (p x)) [
    | inl e ↦ rw (e) (e, keep_passes p xs)
    | inr e ↦ rw (e) (keep_passes p xs)
  ]

abbrev pub plan_of {ℓ} : {F : Type ℓ} → Call F → Planned F
plan_of c = c.planned

abbrev pub WentWell {ℓ} : {F : Type ℓ} → List (Call F) → Type 0
WentWell calls = All (λ c. is_good c.result.outcome ≡ true) calls

module _ {ℓ} {W F : Type ℓ} ⦃f : Float F⦄
    (commit : String → F → Boundary W F → Boundary W F × IntentResult F) where
  -- The calls are the beginning of the list.
  run_prefix :
      (id : String) (planned : List (Planned F)) (s : Boundary W F)
      → (rest : List (Planned F)) × (map plan_of (run commit id planned s).calls ++ rest ≡ planned)
  unfolding run
  run_prefix id [] s = ([], refl)
  run_prefix id ((device, current) ∷ planned) s =
      let (t, r) = commit device current s in
      elim (Bool-cases (is_good r.outcome)) [
        | inl e ↦
            let (rest, more) = run_prefix id planned t in
            (rest, rw (e) (ap (λ ps. (device, current) ∷ ps) more))
        | inr e ↦ (planned, rw (e) refl)
      ]

  run_good :
      (id device : String) (current : F) (planned : List (Planned F)) (s : Boundary W F)
      → is_good (commit device current s).1.outcome ≡ true
      → (run commit id ((device, current) ∷ planned) s).calls
        ≡ record { planned = (device, current); result = (commit device current s).1 }
          ∷ (run commit id planned (commit device current s).0).calls
  unfolding run
  run_good id device current planned s e = rw (e) refl

  run_bad :
      (id device : String) (current : F) (planned : List (Planned F)) (s : Boundary W F)
      → is_good (commit device current s).1.outcome ≡ false
      → (run commit id ((device, current) ∷ planned) s).calls
        ≡ record { planned = (device, current); result = (commit device current s).1 } ∷ []
  unfolding run
  run_bad id device current planned s e = rw (e) refl

  -- Every call but the last went well.
  run_well :
      (id : String) (planned : List (Planned F)) (s : Boundary W F) (before after : List (Call F))
      (c : Call F)
      → (run commit id planned s).calls ≡ before ++ (c ∷ after)
      → WentWell before
  unfolding run
  run_well id planned s [] after c e = tt
  run_well id [] s (b ∷ before) after c e = ground (arith, e)
  run_well id ((device, current) ∷ planned) s (b ∷ before) after c e =
      let (t, r) = commit device current s in
      let call : Call F = record { planned = (device, current); result = r } in
      let more = (run commit id planned t).calls in
      elim (Bool-cases (is_good r.outcome)) [
        | inl good ↦
            let e' = sym (run_good id device current planned s good) ∙ e in
            (
              subst (λ (k : Call F). is_good k.result.outcome ≡ true)
                  (cons_head call b more (before ++ (c ∷ after)) e') good,
              run_well id planned t before after c
                  (cons_tail call b more (before ++ (c ∷ after)) e'),
            )
        | inr bad ↦ absurd (
            not_last before after c (
              cons_tail call b [] (before ++ (c ∷ after))
                (sym (run_bad id device current planned s bad) ∙ e)))
      ]

  map-append : (xs ys : List (Call F)) → map plan_of (xs ++ ys) ≡ map plan_of xs ++ map plan_of ys
  map-append [] ys = refl
  map-append (x ∷ xs) ys = ap (λ ps. x.planned ∷ ps) (map-append xs ys)

  -- Whatever the commits do: when a current that is not below the resident one is written, every
  -- reduction of the plan has been made before, and everything made before has gone well.
  pub adjust_order :
      (id : String) (residents : String → Option F) (planned : List (Planned F)) (s : Boundary W F)
      (before after : List (Call F)) (c : Call F)
      → (adjust commit id residents planned s).calls ≡ before ++ (c ∷ after)
      → raises residents c.planned ≡ true
      → WentWell before
        × ((more : List (Planned F)) × (map plan_of before ≡ reductions residents planned ++ more))
  unfolding adjust
  adjust_order id residents planned s before after c e up =
      let sorted = sort residents planned in
      let (rest, prefix) = run_prefix id sorted s in
      let later = keep (λ p. raises residents p) planned in
      let split : map plan_of before ++ (c.planned ∷ (map plan_of after ++ rest)) ≡ sorted =
        sym (append_assoc (map plan_of before) (c.planned ∷ map plan_of after) rest)
        ∙ ap (λ ps. ps ++ rest) (sym (map-append before (c ∷ after)) ∙ ap (map plan_of) (sym e))
        ∙ prefix in
      (
        run_well id sorted s before after c e,
        behind (λ p. not (raises residents p)) (reductions residents planned) later
            (map plan_of before) (map plan_of after ++ rest) c.planned
            (keep_passes (λ p. not (raises residents p)) planned) (ground (arith, up)) split,
      )
