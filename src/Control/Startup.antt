-- ===== src/Control/Startup.antt =====
-- Start-up: what has to happen before a step other than protection may run.
use ha_spark.Prelude.{◌+◌, ◌≤◌, ◌≡◌, Bool, true, List, [], ◌∷◌, All, arith}
use ha_spark.Authority.{Instant}
use ha_spark.Control.{
  Store, Stage, stages, StageAnswers, run_stages, async_start, grace, permits_non_protection,
  stage_passes,
}

run_stages-All :
    (l : List Stage) (answers : Stage → StageAnswers)
    → run_stages l answers ≡ true
    → All (λ stage. stage_passes stage (answers stage) ≡ true) l
unfolding run_stages
run_stages-All [] answers h = tt
run_stages-All (stage ∷ rest) answers h = (ground arith, run_stages-All rest answers (ground arith))

-- After `async_start` a step other than protection is permitted only by an owner that had a writer
-- and a store, once every stage has succeeded or was skipped in Observe, and not before the grace of
-- two minutes after the stages has passed.
pub async_start_fences :
    (owned has_writer : Bool) (store : Store) (answers : Stage → StageAnswers) (now : Instant)
    (owned_later : Bool) (store_later : Store) (later : Instant)
    → permits_non_protection
        (async_start owned has_writer store answers now)
        owned_later
        store_later
        later
      ≡ true
    → (owned ≡ true)
      × (has_writer ≡ true)
      × (owned_later ≡ true)
      × All (λ stage. stage_passes stage (answers stage) ≡ true) stages
      × (now + grace ≤ later)
unfolding async_start permits_non_protection
async_start_fences owned has_writer store answers now owned_later store_later later h = (
  ground arith,
  ground arith,
  ground arith,
  run_stages-All stages answers (ground arith),
  ground arith,
)
