-- ===== src/SolisFrames/Examples.antt =====
-- Two inverters that are polled for a while, and -1500 W at the grid port.
use ha_spark.Prelude.{ℕ, ◌+◌, ◌*◌, ◌≡◌, refl, true, some, List, [], ◌∷◌, ◌++◌, length, arith}
use ha_spark.Prelude.Int.{negsuc}
use ha_spark.Authority.{second}
use ha_spark.NativeSlots.{Words}
use ha_spark.SolisFrames.{Frame, new_schedule, decode}
use ha_spark.SolisFrames.Fair.{Fair, run, run-Fair}
use ha_spark.SolisFrames.Signed.{words_of, signed_point, decode-words_of}

abbrev times : List ℕ
times = 0 ∷ second ∷ (second + 1) ∷ (2 * second) ∷ (30 * second) ∷ []

run-Fair_example : Fair (run times (new_schedule ("garage" ∷ "barn" ∷ []))).given
run-Fair_example = run-Fair ("garage" ∷ "barn" ∷ []) times

abbrev live : Frame
live = record { bank = "input"; address = 33132; count = 21; interval = 10 }

abbrev before : Words
before = 32 ∷ 0 ∷ 0 ∷ 0 ∷ 0 ∷ 0 ∷ 0 ∷ 55 ∷ 0 ∷ 0 ∷ 0 ∷ 0 ∷ 0 ∷ 0 ∷ 0 ∷ 0 ∷ 0 ∷ 0 ∷ 0 ∷ []

decode-words_of_example :
    decode
      (signed_point live (33132 + length before))
      (before ++ (words_of (negsuc 1499) ++ []))
      true
    ≡ some (negsuc 1499)
decode-words_of_example = decode-words_of live before [] (negsuc 1499) (omega arith) refl refl
