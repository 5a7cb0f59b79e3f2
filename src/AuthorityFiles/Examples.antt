-- ===== src/AuthorityFiles/Examples.antt =====
-- Saves, a failed save and a retirement of the sample site's store.
use ha_spark.Prelude.{arith, List, [], ◌∷◌, ◌*◌, ◌≡◌, refl, true, false, some, none}
use ha_spark.Authority.{AuthorityState, second, system}
use ha_spark.Authority.Samples.{site}
use ha_spark.Authority.Valid.{Limits, is_state}
use ha_spark.Addon.Disk.{valid}
use ha_spark.Control
use ha_spark.AuthorityFiles.{
  Files, Status, plain, AuthorityStore, state, read, Write, async_load, async_save, async_retire,
  retire_read, write_retired, fresh_observe, is_retired,
}
use ha_spark.AuthorityFiles.Refines.{async_save-refines}
use ha_spark.AuthorityFiles.Durable.{Call, load, save, run, started, IsDurable, run-IsDurable, call}
use ha_spark.AuthorityFiles.Retire.{async_retire-ends, MayEnd}
use ha_spark.AuthorityFiles.Fence.{StandsUntilEnded, run-StandsUntilEnded}

abbrev limits : Limits
limits = record { text_length = λ s. 5; is_rating = λ b. true }

abbrev landed : Write
landed = record { lands = true; raises = false }

abbrev lost : Write
lost = record { lands = false; raises = false }

abbrev files : Files
files = record { store = valid site; marker = valid (plain 7) }

abbrev store : AuthorityStore
store = record { files = files; status = Status.ok; held = some site }

abbrev later : AuthorityState
later = record site { epoch = 5 }

async_save-refines_example :
    (state (async_save limits landed later store).0
      ≡ Control.save (async_save limits landed later store).1 later)
    × ((async_save limits landed later store).1 ≡ true
        → (is_state limits later ≡ true)
          × (read (async_save limits landed later store).0.files ≡ (Status.ok, some later))
          × (state (async_load (async_save limits landed later store).0) ≡ some later))
async_save-refines_example = async_save-refines limits landed later store

abbrev calls : List Call
calls = load ∷ save lost later ∷ load ∷ save landed later ∷ []

run-IsDurable_example : IsDurable (run limits calls (started files))
run-IsDurable_example = run-IsDurable limits calls files

abbrev fenced : AuthorityStore
fenced = record store { status = Status.save_failed }

-- Another installation's state, whose save is refused.
abbrev foreign : AuthorityState
foreign = record site { store_id = 8 }

run-StandsUntilEnded_example :
    StandsUntilEnded limits (load ∷ save lost later ∷ save landed later ∷ []) fenced
run-StandsUntilEnded_example =
    run-StandsUntilEnded limits (load ∷ save lost later ∷ save landed later ∷ []) fenced refl

-- After a refused save a load exposes what the disk holds, with no verified save in between.
refused_lifts : state (call limits load (call limits (save landed foreign) fenced)) ≡ some site
unfolding call async_save async_load state read
refused_lifts = refl

abbrev resting : AuthorityState
resting = fresh_observe 7 (100 * second) system

abbrev at_end : AuthorityStore
at_end = record {
  files = record { store = valid resting; marker = valid (plain 7) };
  status = Status.ok;
  held = some resting;
}

ends : (async_retire landed at_end).1 ≡ true
unfolding async_retire read retire_read write_retired
ends = refl

async_retire-ends_example :
    MayEnd (read at_end.files)
    × (is_retired (read (async_retire landed at_end).0.files).0 ≡ true)
    × (state (async_load (async_retire landed at_end).0) ≡ none)
    × ((async_save limits landed later (async_retire landed at_end).0).1 ≡ false)
async_retire-ends_example = async_retire-ends limits landed landed later at_end ends

store-IsDurable : IsDurable store
unfolding IsDurable state read
store-IsDurable x e = ground (arith, e)

later-is_state : is_state limits later ≡ true
unfolding is_state
later-is_state = refl

store_open : state store ≡ some site
unfolding state
store_open = refl
