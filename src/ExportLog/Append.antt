-- ===== src/ExportLog/Append.antt =====
-- `with_append`: the caps and the append-once rule are invariants of the log.
use ha_spark.Prelude.{
  ℕ, ◌≤◌, ◌<◌, ◌≡◌, inl, inr, Bool, true, false, Option, none, some, List, [], ◌∷◌, ◌++◌, arith,
  String, length-append, count, count-append, any, Bool-cases, refl, eq_iff, ap, str_eq,
}
use ha_spark.Authority.{Instant, EventIdentity, TransitionKind, ExportTransition, AuthorityState}
use ha_spark.Authority.Equality.{same_event_iff}
use ha_spark.ExportLog.{of_inverter, logs, same_kind, new_row, with_append}
use ha_spark.ExportLog.Tally.{IsWithin}
use ha_spark.ExportLog.Trim.{trim_returns}

-- Each kind is logged at most once for an inverter and an event.
abbrev pub IsOnce : List ExportTransition → Type 0
IsOnce rows =
    (inverter_id : String) (kind : TransitionKind) (event : EventIdentity)
    → count (logs inverter_id kind event) rows ≤ 1

pub record IsSound (rows : List ExportTransition) : Type 0 where
  pub caps : IsWithin rows 0 none
  pub once : IsOnce rows

any-count :
    (p : ExportTransition → Bool) (rows : List ExportTransition)
    → any p rows ≡ false
    → count p rows ≡ 0
any-count p [] h = refl
any-count p (row ∷ rows) h = ground (arith, any-count p rows)

count-any :
    (p : ExportTransition → Bool) (rows : List ExportTransition)
    → 0 < count p rows
    → any p rows ≡ true
count-any p [] h = absurd (omega arith)
count-any p (row ∷ rows) h = ground (arith, count-any p rows)

same_kind_iff : (a b : TransitionKind) → same_kind a b ≡ true → a ≡ b
same_kind_iff a b h = ground arith

same_kind_refl : (a b : TransitionKind) → a ≡ b → same_kind a b ≡ true
same_kind_refl a b h = ground arith

module _ (inverter_id : String) (event : EventIdentity) (kind : TransitionKind)
    (row : ExportTransition) (is_inverter : row.inverter_id ≡ inverter_id)
    (is_event : row.event ≡ event) (is_kind : row.kind ≡ kind) where
  -- A key that the new row answers is its own key.
  logs-count :
      (i : String) (k : TransitionKind) (e : EventIdentity) (rows : List ExportTransition)
      → logs i k e row ≡ true
      → count (logs i k e) rows ≡ count (logs inverter_id kind event) rows
  logs-count i k e rows h =
      let same_i : inverter_id ≡ i = ground (arith, eq_iff row.inverter_id i) in
      let same_k : kind ≡ k = ground (arith, same_kind_iff row.kind k) in
      let same_e : event ≡ e = ground (arith, same_event_iff row.event e) in
      rw (same_i, same_k, same_e)

  logs_self : logs inverter_id kind event row ≡ true
  logs_self = ground (
    arith,
    (eq_iff row.inverter_id inverter_id).1 is_inverter,
    (same_event_iff row.event event).1 is_event,
    same_kind_refl row.kind kind is_kind,
  )

  append-IsOnce :
      (rows : List ExportTransition)
      → IsOnce rows
      → count (logs inverter_id kind event) rows ≡ 0
      → IsOnce (rows ++ row ∷ [])
  append-IsOnce rows once fresh i k e =
      let both = count-append (logs i k e) rows (row ∷ []) in
      elim (Bool-cases (logs i k e row)) [
        | inl h ↦
            let same : count (logs i k e) rows ≡ count (logs inverter_id kind event) rows =
              logs-count i k e rows h in
            ground (arith, both, same, h, fresh)
        | inr h ↦ ground (arith, both, h, once i k e)
      ]

  append-IsSound :
      (rows : List ExportTransition)
      → IsWithin rows 1 (some inverter_id)
      → IsOnce rows
      → count (logs inverter_id kind event) rows ≡ 0
      → IsSound (rows ++ row ∷ [])
  append-IsSound rows within once fresh = record {
    caps = record {
      total = omega (arith, within.total, length-append rows (row ∷ []));
      each = λ j. ground (
        arith,
        within.each j,
        count-append (of_inverter j) rows (row ∷ []),
        ap (λ (i : String). str_eq i j) is_inverter,
      );
    };
    once = append-IsOnce rows once fresh;
  }

-- From a log within its caps and with no kind logged twice for an inverter and an event,
-- `with_append` always returns, and the log stays so. The new log has the kind for the inverter and
-- the event. If it was logged before, nothing changes at all.
pub with_append-IsSound :
    (state : AuthorityState) (inverter_id : String) (event : EventIdentity) (kind : TransitionKind)
    (at : Instant) (reason : Option String) (cleared : Option Bool) (id : ℕ)
    → IsSound state.export_transitions
    → (next : AuthorityState) × (with_append state inverter_id event kind at reason cleared id
        ≡ some next)
      × IsSound next.export_transitions
      × (any (logs inverter_id kind event) next.export_transitions ≡ true)
      × (any (logs inverter_id kind event) state.export_transitions ≡ true → next ≡ state)
unfolding with_append
with_append-IsSound state inverter_id event kind at reason cleared id sound =
    let rows = state.export_transitions in
    elim (Bool-cases (any (logs inverter_id kind event) rows)) [
      | inl old ↦ (state, rw old, sound, old, λ _. refl)
      | inr new ↦
          let row : ExportTransition = new_row inverter_id id event at kind reason cleared in
          let (kept, dropped, e, within, fewer, _, _) =
            trim_returns rows at 1 (some inverter_id) (omega arith) in
          let fresh : count (logs inverter_id kind event) kept ≡ 0 = omega (
            arith,
            fewer (logs inverter_id kind event),
            any-count (logs inverter_id kind event) rows new,
          ) in
          let rows_once : IsOnce kept =
            λ i k ev. omega (arith, fewer (logs i k ev), sound.once i k ev) in
          let next : AuthorityState = record state {
            export_transitions = kept ++ row ∷ [];
            last_changed_at = at;
          } in
          (
            next,
            rw (new, e),
            append-IsSound inverter_id event kind row refl refl refl kept within rows_once fresh,
            count-any (logs inverter_id kind event) (kept ++ row ∷ []) (
                ground (
                  arith,
                  count-append (logs inverter_id kind event) kept (row ∷ []),
                  logs_self inverter_id event kind row refl refl refl,
                )),
            λ old. ground (arith, old, new),
          )
    ]

-- What an append leaves alone.
pub with_append_keeps :
    (state : AuthorityState) (inverter_id : String) (event : EventIdentity) (kind : TransitionKind)
    (at : Instant) (reason : Option String) (cleared : Option Bool) (id : ℕ) (next : AuthorityState)
    → with_append state inverter_id event kind at reason cleared id ≡ some next
    → (next.stop_latches ≡ state.stop_latches)
      × (next.export_supervisions ≡ state.export_supervisions)
unfolding with_append
with_append_keeps state inverter_id event kind at reason cleared id next h = ground arith
