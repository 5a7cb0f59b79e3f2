-- ===== src/NativeSlots/Examples.antt =====
-- An inverter that keeps what is written, with a charge from 1:00 to 5:00 and a discharge at 17:00.
use ha_spark.Prelude.{List, [], ◌∷◌, ◌≡◌, refl, true, false, some}
use ha_spark.NativeSlots.{
  zeros, Words, applied, Bus, NativeSlots, read, confirm, tries, sustains, same_words, write_block,
  block, confirm_zero, clear_discharge,
}
use ha_spark.NativeSlots.Allowed.{
  call_block, call_arm, call_clear, IsSafe, SlotCall, slot_run, new_slots, slot_run-IsSafe,
}
use ha_spark.NativeSlots.Clear.{Cleared, clear_discharge-Cleared}

abbrev bus : Bus Words
bus = record {
  read_holding = λ address w. (w, some w);
  write = λ address target w. (target, true);
  read_current = λ w. (w, some 500);
  wait = λ w. w;
  soc_trusted = λ w. true;
  permits = λ w. true;
  exports = λ w. false;
}

abbrev resident : Words
resident = 1 ∷ 0 ∷ 5 ∷ 0 ∷ 17 ∷ 0 ∷ 18 ∷ 0 ∷ []

abbrev charge_only : Words
charge_only = 1 ∷ 0 ∷ 5 ∷ 0 ∷ zeros

abbrev slots : NativeSlots Words
slots = new_slots bus resident false zeros

clears : (clear_discharge bus slots).1 ≡ applied
unfolding clear_discharge block write_block read confirm tries sustains same_words confirm_zero
clears = refl

clear_discharge-Cleared_example : Cleared bus slots (clear_discharge bus slots)
clear_discharge-Cleared_example = clear_discharge-Cleared bus slots

abbrev calls : List SlotCall
calls = call_clear ∷ call_arm (17 ∷ 0 ∷ 18 ∷ 0 ∷ []) false ∷ call_block 43153 zeros ∷ []

slot_run-IsSafe_example : IsSafe bus (slot_run bus calls (new_slots bus resident false zeros))
slot_run-IsSafe_example = slot_run-IsSafe bus calls resident false zeros
