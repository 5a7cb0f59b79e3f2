-- ===== src/AuthorityFiles/Fence.antt =====
-- The fence after a failed save.
use ha_spark.Prelude.{
  if◌then◌else◌, ◌≡◌, ◌⊎◌, inl, inr, refl, Bool, true, false, Option, none, some, arith, ◌||◌, ◌&&◌,
  not, if_both, if_cases, List, [], ◌∷◌, ℕ,
}
use ha_spark.Authority.{Instant, system, repair, AuthorityState}
use ha_spark.Authority.Valid.{Limits}
use ha_spark.AuthorityFiles.{
  Status, AuthorityStore, state, read, async_load, Write, persist, async_save, async_initialise,
  fresh_observe, async_confirm_observe, async_retire, retire_read, is_failed, may_save, publish,
  is_ok, is_absent, is_retired,
}
use ha_spark.AuthorityFiles.Refines.{persist_fences}
use ha_spark.AuthorityFiles.Durable.{
  Call, load, fail, restart, save, initialise, confirm, retire, call,
}

-- What ends the fence of a failed save in the store `s`, where `next` is the store after the call: a
-- verified write of this call's own candidate, which the disk then holds; a save that is refused, which
-- publishes `unknown` and writes nothing; or a restart.
abbrev pub Ends : Call → AuthorityStore → AuthorityStore → Type 0
Ends load s next = ⊥
Ends fail s next = ⊥
Ends restart s next = Unit
Ends (save w x) s next =
    (state next ≡ some x) × (read next.files ≡ (Status.ok, some x))
    ⊎ (may_save (read s.files) s.held x ≡ false)
      × (next.status ≡ Status.unknown)
      × (next.files ≡ s.files)
Ends (initialise w₁ w₂ id now) s next = ⊥
Ends (confirm w₁ w₂ id now) s next =
    (state next ≡ some (fresh_observe id now repair))
    × (read next.files ≡ (Status.ok, some (fresh_observe id now repair)))
Ends (retire w) s next = ⊥

abbrev pub IsFenced : AuthorityStore → Type 0
IsFenced s = (s.status ≡ Status.save_failed) × (state s ≡ none)

fenced : (s : AuthorityStore) → s.status ≡ Status.save_failed → IsFenced s
unfolding state
fenced s h = (h, ground (arith, h))

-- The fence stands, unless this call ends it.
abbrev KeepsOrEnds : Call → AuthorityStore → AuthorityStore → Type 0
KeepsOrEnds c s next = (next.status ≡ Status.save_failed) ⊎ Ends c s next

refused_keeps :
    (absent : Bool) (s : AuthorityStore) (r : AuthorityStore × Bool)
    → s.status ≡ Status.save_failed
    → (if absent && not (is_failed s.status) then r else (s, false)).0.status ≡ Status.save_failed
refused_keeps true s r h = rw (h) refl
refused_keeps false s r h = h

retire_keeps :
    (w : Write) (s : AuthorityStore) (o : Status × Option AuthorityState)
    → s.status ≡ Status.save_failed
    → (retire_read w s o).0.status ≡ Status.save_failed
unfolding retire_read
retire_keeps w s (status, none) h = h
retire_keeps w s (status, some x) h = ground (arith, h)

save_ends :
    (l : Limits) (w : Write) (x : AuthorityState) (s : AuthorityStore)
    → KeepsOrEnds (save w x) s (async_save l w x s).0
unfolding async_save
save_ends l w x s =
    let written = persist l w w false x s in
    if_cases (λ (r : AuthorityStore × Bool). KeepsOrEnds (save w x) s r.0)
      (may_save (read s.files) s.held x) written (publish Status.unknown none s, false)
      (λ may. elim (persist_fences l w w false x s) [
        | inl f ↦ inl f
        | inr exposed ↦ inr (inl exposed)
      ])
      (λ refused. inr (inr (refused, refl, refl)))

confirm_ends :
    (l : Limits) (w₁ w₂ : Write) (id : ℕ) (now : Instant) (s : AuthorityStore)
    → s.status ≡ Status.save_failed
    → KeepsOrEnds (confirm w₁ w₂ id now) s (async_confirm_observe l w₁ w₂ id now s).0
unfolding async_confirm_observe
confirm_ends l w₁ w₂ id now s h =
    let x = fresh_observe id now repair in
    let status = (read s.files).0 in
    if_both (λ (r : AuthorityStore × Bool). KeepsOrEnds (confirm w₁ w₂ id now) s r.0)
      (is_retired status || ((is_ok status || is_absent status) && not (is_failed s.status)))
      (s, false) (persist l w₁ w₂ true x s) (inl h) (persist_fences l w₁ w₂ true x s)

call_ends :
    (l : Limits) (c : Call) (s : AuthorityStore)
    → s.status ≡ Status.save_failed
    → KeepsOrEnds c s (call l c s)
unfolding call async_initialise async_retire async_load
call_ends l load s h = inl (ground (arith, h))
call_ends l fail s h = inl refl
call_ends l restart s h = inr tt
call_ends l (save w x) s h = save_ends l w x s
call_ends l (initialise w₁ w₂ id now) s h = inl (
    refused_keeps (is_absent (read s.files).0) s
      (persist l w₁ w₂ true (fresh_observe id now system) s) h)
call_ends l (confirm w₁ w₂ id now) s h = confirm_ends l w₁ w₂ id now s h
call_ends l (retire w) s h = inl (retire_keeps w s (read s.files) h)

-- The fence stands before each call of a history, up to and with the first that ends it, or to the end.
abbrev pub StandsUntilEnded : Limits → List Call → AuthorityStore → Type 0
StandsUntilEnded l [] s = IsFenced s
StandsUntilEnded l (c ∷ calls) s =
    IsFenced s × (Ends c s (call l c s) ⊎ StandsUntilEnded l calls (call l c s))

-- After a failed save no state is exposed, whatever is called, up to the first call that ends the fence:
-- a save or a confirmation that is verified, which exposes its own candidate, held by the disk; a
-- restart; or a save that is refused for its identity or for the disk, which writes nothing and leaves
-- the store unknown.
pub run-StandsUntilEnded :
    (l : Limits) (calls : List Call) (s : AuthorityStore)
    → s.status ≡ Status.save_failed
    → StandsUntilEnded l calls s
run-StandsUntilEnded l [] s h = fenced s h
run-StandsUntilEnded l (c ∷ calls) s h = elim (call_ends l c s h) [
  | inl still ↦ (fenced s h, inr (run-StandsUntilEnded l calls (call l c s) still))
  | inr ends ↦ (fenced s h, inl ends)
]
