-- ===== src/SolisFrames.antt =====
-- custom_components/ha_spark/solis_frames.py: the polling schedule, and the whole numbers that the
-- words of a point stand for, before they are scaled.
pub mod Fair
pub mod Signed
mod Examples
use ha_spark.Prelude.{
  ℕ, zero, suc, ◌+◌, ◌-◌, ◌*◌, ◌%◌, String, Bool, true, false, not, ◌&&◌, ◌||◌, Option, none, some,
  List, [], ◌∷◌, ◌++◌, leb, ltb, ◌==◌, str_eq, if◌then◌else◌, length, get_elem?, take, drop, map,
}
use ha_spark.Prelude.Int.{ℤ, pos, sub_ℕ, neg, ltbℤ}
use ha_spark.Authority.{Instant, second}
use ha_spark.NativeSlots.{Words, valid_words}

-- The interval is in seconds.
pub record Frame : Type 0 where
  pub bank : String
  pub address : ℕ
  pub count : ℕ
  pub interval : ℕ

abbrev frame : String → ℕ → ℕ → ℕ → Frame
frame bank address count interval = record {
  bank = bank;
  address = address;
  count = count;
  interval = interval;
}

-- `FRAMES`
abbrev pub frames : List Frame
frames =
    frame "input" 33132 21 10
    ∷ frame "input" 33022 6 30
    ∷ frame "holding" 43141 30 30
    ∷ frame "holding" 43007 1 30
    ∷ frame "input" 33161 29 30
    ∷ frame "input" 33029 12 30
    ∷ frame "input" 33049 10 10
    ∷ frame "input" 33126 6 10
    ∷ frame "holding" 43073 2 30
    ∷ []

-- An inverter and a frame of it.
abbrev pub Item : Type 0
Item = String × Frame

abbrev pub same_item : Item → Item → Bool
same_item (a, f) (b, g) =
    str_eq a b
    && str_eq f.bank g.bank
    && f.address == g.address
    && f.count == g.count
    && f.interval == g.interval

-- `Schedule`, with the reservations so far, newest first; `none` stands for minus infinity.
pub record Schedule : Type 0 where
  pub items : List Item
  pub due : Item → Option Instant
  pub cursor : ℕ
  pub next_at : Option Instant
  pub given : List (Instant × Item)

-- `__init__`
abbrev pub new_schedule : List String → Schedule
new_schedule inverters = record {
  items = all_items frames;
  due = λ item. none;
  cursor = 0;
  next_at = none;
  given = [];
}
  where
    all_items : List Frame → List Item
    all_items [] = []
    all_items (f ∷ fs) = map (λ i. (i, f)) inverters ++ all_items fs

abbrev pub is_due : Instant → Option Instant → Bool
is_due now none = true
is_due now (some at) = leb at now

abbrev pub reserve : Instant → Item → Schedule → Schedule
reserve now item s = record s {
  due =
      λ other. if same_item item other then some (now + item.1.interval * second) else s.due other;
  next_at = some (now + second);
  given = (now, item) ∷ s.given;
}

-- One round of the loop of `next`.
abbrev pub picked :
    Option Item → Instant → Schedule → Schedule → Schedule × Option Item → Schedule × Option Item
picked none now s moved rest = (s, none)
picked (some item) now s moved rest =
    if is_due now (moved.due item) then (reserve now item moved, some item) else rest

-- The loop of `next`, for as many rounds as there are items.
pub scan : ℕ → Instant → Schedule → Schedule × Option Item
scan zero now s = (s, none)
scan (suc n) now s =
    let moved = record s { cursor = suc s.cursor % length s.items } in
    let rest = scan n now moved in picked (get_elem? s.items s.cursor) now s moved rest

-- `next`
pub next : Instant → Schedule → Schedule × Option Item
next now s =
    let found = scan (length s.items) now s in
    if not (is_due now s.next_at) then (s, none) else found

pub data Kind : Type 0 where
  u16 u32 s16 s32 battery : Kind

-- A point that stands for a number.
pub record Point : Type 0 where
  pub frame : Frame
  pub address : ℕ
  pub count : ℕ
  pub kind : Kind
  pub percent : Bool

-- `value << 16 | part[1]`, for valid words.
abbrev pub joined : ℕ → Words → ℕ
joined high (low ∷ []) = high * 65536 + low
joined high _ = high

abbrev pub signed : Kind → ℕ → ℤ
signed s16 value = if leb 32768 value then sub_ℕ value 65536 else pos value
signed s32 value = if leb 2147483648 value then sub_ℕ value 4294967296 else pos value
signed _ value = pos value

-- The battery's sign is the word at 3 of its whole frame.
abbrev pub directed : Bool → ℕ → Words → Point → ℤ → Option ℤ
directed whole direction words p value =
    if not whole || not (length words == p.frame.count) || not (leb direction 1)
    then none
    else some (if direction == 1 then neg value else value)

abbrev pub with_sign : Bool → Words → Point → Option ℕ → ℤ → Option ℤ
with_sign whole words p direction value = elim p.kind [
  | battery ↦ elim direction [ none ↦ none | some d ↦ directed whole d words p value ]
  | _ ↦ some value
]

abbrev pub in_percent : Bool → Option ℤ → Option ℤ
in_percent percent none = none
in_percent false (some value) = some value
in_percent true (some value) = if ltbℤ (pos 100) value then none else some value

-- `decode` of a number, before its scale.
pub decode : Point → Words → Bool → Option ℤ
decode p words whole =
    let offset = if whole then p.address - p.frame.address else 0 in
    let part = take p.count (drop offset words) in
    let value : Option ℤ = elim part [
      | [] ↦ none
      | high ∷ rest ↦
          in_percent p.percent
            (with_sign whole words p (get_elem? words 3) (signed p.kind (joined high rest)))
    ] in
    if not (valid_words words) || not (length part == p.count) then none else value
