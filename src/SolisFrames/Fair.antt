-- ===== src/SolisFrames/Fair.antt =====
-- The schedule reserves at most one frame a second, and each frame of an inverter at its interval.
use ha_spark.Prelude.{
  ℕ, zero, suc, ◌+◌, ◌*◌, ◌%◌, ◌≤◌, ◌≡◌, refl, ap, ◌∙◌, String, true, false, not, ◌⊎◌, inl, inr,
  Option, none, some, List, [], ◌∷◌, if◌then◌else◌, length, get_elem?, All, arith, eq_iff,
  Bool-cases, if_cases,
}
use mathlib.Core.Path.{subst}
use ha_spark.Authority.{Instant, second}
use ha_spark.SolisFrames.{
  Item, same_item, Schedule, new_schedule, is_due, reserve, picked, scan, next,
}

abbrev pub AfterSecond : Instant → List (Instant × Item) → Type 0
AfterSecond now [] = Unit
AfterSecond now ((at, item) ∷ rest) = at + second ≤ now

-- A reservation comes a second after the one before it, and its interval after any of the same frame.
abbrev pub Fair : List (Instant × Item) → Type 0
Fair [] = Unit
Fair ((now, item) ∷ rest) =
    AfterSecond now rest
    × All
        (λ (g : Instant × Item).
          (same_item g.1 item ≡ false) ⊎ (g.0 + item.1.interval * second ≤ now))
        rest
    × Fair rest

abbrev AtLeast : ℕ → Option Instant → Type 0
AtLeast n none = ⊥
AtLeast n (some at) = n ≤ at

abbrev NextOk : Option Instant → List (Instant × Item) → Type 0
NextOk o [] = Unit
NextOk o ((at, item) ∷ rest) = AtLeast (at + second) o

abbrev Inv : Schedule → Type 0
Inv s =
    Fair s.given
    × NextOk s.next_at s.given
    × All (λ (g : Instant × Item). AtLeast (g.0 + g.1.1.interval * second) (s.due g.1)) s.given

abbrev item_of : String → String → ℕ → ℕ → ℕ → Item
item_of id bank address count interval =
    (id, record { bank = bank; address = address; count = count; interval = interval })

same_item_lem : (x y : Item) → same_item x y ≡ true → x ≡ y
same_item_lem x y h =
    let f = x.1 in
    let g = y.1 in
    let ids : x.0 ≡ y.0 = (eq_iff x.0 y.0).0 (ground (arith, h)) in
    let banks : f.bank ≡ g.bank = (eq_iff f.bank g.bank).0 (ground (arith, h)) in
    let addresses : f.address ≡ g.address = ground (arith, h) in
    let counts : f.count ≡ g.count = ground (arith, h) in
    let intervals : f.interval ≡ g.interval = ground (arith, h) in
    ap (λ id. item_of id f.bank f.address f.count f.interval) ids
    ∙ ap (λ bank. item_of y.0 bank f.address f.count f.interval) banks
    ∙ ap (λ address. item_of y.0 g.bank address f.count f.interval) addresses
    ∙ ap (λ count. item_of y.0 g.bank g.address count f.interval) counts
    ∙ ap (λ interval. item_of y.0 g.bank g.address g.count interval) intervals

same_item_refl : (x : Item) → same_item x x ≡ true
same_item_refl x = ground (arith, (eq_iff x.0 x.0).1 refl, (eq_iff x.1.bank x.1.bank).1 refl)

AtLeast-due : (n now : ℕ) (o : Option Instant) → AtLeast n o → is_due now o ≡ true → n ≤ now
AtLeast-due n now none h d = elim h [ ]
AtLeast-due n now (some at) h d = ground (arith, h, d)

after_second :
    (now : Instant) (o : Option Instant) (given : List (Instant × Item))
    → NextOk o given
    → is_due now o ≡ true
    → AfterSecond now given
after_second now o [] h d = tt
after_second now o ((at, item) ∷ rest) h d = AtLeast-due (at + second) now o h d

abbrev DueOk : (Item → Option Instant) → List (Instant × Item) → Type 0
DueOk due given =
    All (λ (g : Instant × Item). AtLeast (g.0 + g.1.1.interval * second) (due g.1)) given

intervals_ok :
    (now : Instant) (item : Item) (due : Item → Option Instant) (given : List (Instant × Item))
    → is_due now (due item) ≡ true
    → DueOk due given
    → All
        (λ (g : Instant × Item).
          (same_item g.1 item ≡ false) ⊎ (g.0 + item.1.interval * second ≤ now))
        given
intervals_ok now item due [] d h = tt
intervals_ok now item due ((at, other) ∷ rest) d h = (
  elim (Bool-cases (same_item other item)) [
    | inr e ↦ inl e
    | inl e ↦
        let same = same_item_lem other item e in
        inr (
          AtLeast-due (at + item.1.interval * second) now (due item)
            (subst (λ (x : Item). AtLeast (at + x.1.interval * second) (due x)) same h.0) d)
  ],
  intervals_ok now item due rest d h.1,
)

due_ok :
    (now : Instant) (item : Item) (due : Item → Option Instant) (given : List (Instant × Item))
    → is_due now (due item) ≡ true
    → DueOk due given
    → DueOk
        (λ other. if same_item item other then some (now + item.1.interval * second) else due other)
        given
due_ok now item due [] d h = tt
due_ok now item due ((at, other) ∷ rest) d h = (
  if_cases (AtLeast (at + other.1.interval * second)) (same_item item other)
      (some (now + item.1.interval * second)) (due other)
      (λ e.
        let same = same_item_lem item other e in
        let earlier =
          AtLeast-due (at + other.1.interval * second) now (due other) h.0
            (subst (λ (x : Item). is_due now (due x) ≡ true) same d) in
        let interval = ap (λ (x : Item). x.1.interval) same in omega (arith, earlier, interval))
      (λ e. h.0),
  due_ok now item due rest d h.1,
)

reserve-Inv :
    (now : Instant) (item : Item) (s : Schedule)
    → is_due now s.next_at ≡ true
    → is_due now (s.due item) ≡ true
    → Inv s
    → Inv (reserve now item s)
reserve-Inv now item s d e (fair, next_ok, due) = (
  (after_second now s.next_at s.given next_ok d, intervals_ok now item s.due s.given e due, fair),
  omega arith,
  (
    if_cases (AtLeast (now + item.1.interval * second)) (same_item item item)
        (some (now + item.1.interval * second)) (s.due item) (λ _. omega arith)
        (λ n. ground (arith, n, same_item_refl item)),
    due_ok now item s.due s.given e due,
  ),
)

found-Inv :
    (o : Option Item) (now : Instant) (s moved : Schedule) (rest : Schedule × Option Item)
    → is_due now moved.next_at ≡ true
    → Inv s
    → Inv moved
    → Inv rest.0
    → Inv (picked o now s moved rest).0
found-Inv none now s moved rest d h k l = h
found-Inv (some item) now s moved rest d h k l =
    if_cases (λ (x : Schedule × Option Item). Inv x.0) (is_due now (moved.due item)) _ rest
      (λ e. reserve-Inv now item moved d e k) (λ e. l)

scan-Inv :
    (n : ℕ) (now : Instant) (s : Schedule)
    → is_due now s.next_at ≡ true
    → Inv s
    → Inv (scan n now s).0
unfolding scan
scan-Inv zero now s d h = h
scan-Inv (suc n) now s d h =
    let moved = record s { cursor = suc s.cursor % length s.items } in
    found-Inv (get_elem? s.items s.cursor) now s moved (scan n now moved) d h h
      (scan-Inv n now moved d h)

next-Inv : (now : Instant) (s : Schedule) → Inv s → Inv (next now s).0
unfolding next
next-Inv now s h =
    if_cases (λ (x : Schedule × Option Item). Inv x.0) (not (is_due now s.next_at)) (s, none) _
      (λ e. h) (λ e. scan-Inv (length s.items) now s (ground (arith, e)) h)

-- `next` at each of these times.
pub run : List Instant → Schedule → Schedule
run [] s = s
run (now ∷ rest) s = run rest (next now s).0

run-Inv : (times : List Instant) (s : Schedule) → Inv s → Inv (run times s)
unfolding run
run-Inv [] s h = h
run-Inv (now ∷ rest) s h = run-Inv rest (next now s).0 (next-Inv now s h)

-- At whatever times a new schedule is asked: each reservation comes at least a second after the one
-- before it, and at least its interval after any of the same frame of the same inverter.
pub run-Fair :
    (inverters : List String) (times : List Instant)
    → Fair (run times (new_schedule inverters)).given
run-Fair inverters times = (run-Inv times (new_schedule inverters) (tt, tt, tt)).0
