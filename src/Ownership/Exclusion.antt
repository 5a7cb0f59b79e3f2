-- ===== src/Ownership/Exclusion.antt =====
-- The two programs never both hold the site. A system is the integration's ownership store and the
-- add-on's authority store; its steps are those of either side and the exchanges between them.
use ha_spark.Prelude.{
  ◌≡◌, ◌⊎◌, inl, inr, refl, Bool, true, false, not, Option, none, some, String, ℕ, arith, List, [],
  Bool-cases,
}
use ha_spark.Authority.{Instant, AuthorityState}
use ha_spark.Addon.Disk.{AddonHold, AddonState, File, missing, valid, Requester}
use ha_spark.Addon.{
  Store, Write, Owner, construct, start_process, confirm_observe, save_holds, save_fallback,
  save_readiness_notice,
}
use ha_spark.Addon.Link.{AddonAuthority, receive}
use ha_spark.Addon.Retire.{IsFenced, retirement-IsFenced}
use ha_spark.Addon.Sealed.{is_sealed, start-sealed, confirm-sealed, saves-sealed, receive-sealed}
use ha_spark.Ownership.{
  Refusal, Summary, OwnershipStore, Saved, is_pending, async_load, async_request, async_advance,
  abort, save, is_active, same_owner, authority_owner, new_store,
}

pub record System : Type 0 where
  pub integration : OwnershipStore
  pub addon : Store

-- An owner that only a retired add-on may meet.
abbrev pub needs_retired : Owner → Bool
needs_retired Owner.integration = true
needs_retired Owner.pending_addon = true
needs_retired _ = false

abbrev pub disk_needs : File Owner → Bool
disk_needs (valid owner) = needs_retired owner
disk_needs _ = false

-- The integration's side on its own: what it shows or keeps needs a retired add-on only where
-- `retired?` says that the add-on is retired; and a confirmed add-on is what the file says.
pub record IsGuarded (retired? : Bool) (s : OwnershipStore) : Type 0 where
  pub memory : needs_retired s.owner ≡ true → retired? ≡ true
  pub disk : disk_needs s.disk ≡ true → retired? ≡ true
  pub settled : s.owner ≡ Owner.addon → disk_needs s.disk ≡ false

save-IsGuarded :
    (r : Bool) (w : Saved) (owner : Owner) (s : OwnershipStore)
    → (needs_retired owner ≡ true → r ≡ true)
    → IsGuarded r s
    → (is_pending owner ≡ true) ⊎ (is_pending s.owner ≡ true)
    → IsGuarded r (save w owner s).0
unfolding save
save-IsGuarded r w owner s h g p = record {
  memory = ground (arith, h, p, g.memory, g.disk, g.settled);
  disk = ground (arith, h, p, g.memory, g.disk, g.settled);
  settled = ground (arith, h, p, g.memory, g.disk, g.settled);
}

load-IsGuarded :
    (r : Bool) (w : Saved) (target : Option Owner) (s : OwnershipStore)
    → (disk_needs s.disk ≡ true → r ≡ true)
    → IsGuarded r (async_load w target s)
unfolding async_load
load-IsGuarded r w target s g = record {
  memory = ground (arith, g);
  disk = ground (arith, g);
  settled = ground (arith, g);
}

request-IsGuarded :
    (r : Bool) (w : Saved) (authority : Option AuthorityState) (target : Owner)
    (summary : Option Summary) (s : OwnershipStore)
    → is_pending target ≡ false
    → IsGuarded r s
    → IsGuarded r (async_request w authority target summary s).0
unfolding async_request
request-IsGuarded r w authority target summary s t g = record {
  memory = ground (arith, t, g.memory, g.disk, g.settled);
  disk = ground (arith, t, g.memory, g.disk, g.settled);
  settled = ground (arith, t, g.memory, g.disk, g.settled);
}

abort-IsGuarded :
    (r : Bool) (w : Saved) (reason : Refusal) (s : OwnershipStore)
    → IsGuarded r s
    → IsGuarded r (abort w reason s).0
unfolding abort
abort-IsGuarded r w reason s g = record {
  memory = ground (arith, g.memory, g.disk, g.settled);
  disk = ground (arith, g.memory, g.disk, g.settled);
  settled = ground (arith, g.memory, g.disk, g.settled);
}

abbrev pub answers_retired : Summary → Bool
answers_retired summary = elim summary.addon_authority [
  | none ↦ false
  | some addon ↦ not (is_active addon.active)
]

advance-IsGuarded :
    (r : Bool) (w : Saved) (authority : Option AuthorityState) (retires : Bool)
    (target : Option Owner) (summary : Summary) (s : OwnershipStore)
    → (answers_retired summary ≡ true → r ≡ true)
    → IsGuarded r s
    → IsGuarded r (async_advance w authority retires target summary s).0
unfolding async_advance
advance-IsGuarded r w authority retires target summary s a g = record {
  memory = ground (arith, a, g.memory, g.disk, g.settled);
  disk = ground (arith, a, g.memory, g.disk, g.settled);
  settled = ground (arith, a, g.memory, g.disk, g.settled);
}

-- A confirmed add-on needs nothing of the other side.
addon-IsGuarded :
    (r r' : Bool) (s : OwnershipStore) → s.owner ≡ Owner.addon → IsGuarded r s → IsGuarded r' s
addon-IsGuarded r r' s e g = record {
  memory = ground (arith, e);
  disk = ground (arith, e, g.settled);
  settled = g.settled;
}

grow-IsGuarded :
    (r r' : Bool) (s : OwnershipStore) → (r ≡ true → r' ≡ true) → IsGuarded r s → IsGuarded r' s
grow-IsGuarded r r' s h g = record {
  memory = λ n. h (g.memory n);
  disk = λ n. h (g.disk n);
  settled = g.settled;
}

names_addon :
    (authority : Option AuthorityState) (s : OwnershipStore)
    → authority_owner authority s ≡ Owner.addon
    → s.owner ≡ Owner.addon
unfolding authority_owner
names_addon authority s h = ground arith

-- One step of either side, or an exchange: a snapshot that names the owner of the moment, its
-- treatment by the add-on, and the answer's by the integration, unless it is lost. The data of the
-- store, what a save meets, and what other parts answer are arbitrary.
pub data SystemStep : System → System → Type 0 where
  -- The integration's set-up, after a restart.
  load :
      {i : OwnershipStore} {a : Store} (w : Saved) (target : Option Owner)
      → SystemStep
          (record { integration = i; addon = a })
          (record { integration = async_load w target (new_store i.disk); addon = a })
  request :
      {i : OwnershipStore} {a : Store} (w : Saved) (authority : Option AuthorityState)
      (target : Owner) (summary : Option Summary)
      → is_pending target ≡ false
      → SystemStep
          (record { integration = i; addon = a })
          (record { integration = (async_request w authority target summary i).0; addon = a })
  withdraw :
      {i : OwnershipStore} {a : Store} (w : Saved) (reason : Refusal)
      → SystemStep
          (record { integration = i; addon = a })
          (record { integration = (abort w reason i).0; addon = a })
  exchange :
      {i : OwnershipStore} {a a' : Store} (shown : Option AuthorityState) (w₀ w₁ w₂ : Write)
      (fresh : AddonState) (native : Bool) (answer : AddonAuthority) (w : Saved)
      (authority : Option AuthorityState) (retires : Bool) (target : Option Owner)
      (summary : Summary)
      → receive w₀ w₁ w₂ fresh native (authority_owner shown i) a ≡ some (a', answer)
      → summary.addon_authority ≡ some answer
      → SystemStep
          (record { integration = i; addon = a })
          (record {
            integration = (async_advance w authority retires target summary i).0;
            addon = a';
          })
  lose_answer :
      {i : OwnershipStore} {a a' : Store} (shown : Option AuthorityState) (w₀ w₁ w₂ : Write)
      (fresh : AddonState) (native : Bool) (answer : AddonAuthority)
      → receive w₀ w₁ w₂ fresh native (authority_owner shown i) a ≡ some (a', answer)
      → SystemStep (record { integration = i; addon = a }) (record { integration = i; addon = a' })
  -- The add-on's process starts: from its files alone, with any answers of its writes.
  start :
      {i : OwnershipStore} {a : Store} (w₁ w₂ : Write) (id : ℕ) (now : Instant)
      → SystemStep
          (record { integration = i; addon = a })
          (record { integration = i; addon = (start_process w₁ w₂ id now (construct a.files)).0 })
  confirm :
      {i : OwnershipStore} {a : Store} (w₁ w₂ : Write) (id : ℕ) (now : Instant)
      (requester : Requester)
      → SystemStep
          (record { integration = i; addon = a })
          (record { integration = i; addon = (confirm_observe w₁ w₂ id now requester a).0 })
  keep_holds :
      {i : OwnershipStore} {a : Store} (w : Write) (holds : List AddonHold) (now : Instant)
      → SystemStep
          (record { integration = i; addon = a })
          (record { integration = i; addon = (save_holds w holds now a).0 })
  keep_fallback :
      {i : OwnershipStore} {a : Store} (w : Write) (active? : Bool) (cause : String) (now : Instant)
      → SystemStep
          (record { integration = i; addon = a })
          (record { integration = i; addon = (save_fallback w active? cause now a).0 })
  keep_notice :
      {i : OwnershipStore} {a : Store} (w : Write) (notified : Bool)
      → SystemStep
          (record { integration = i; addon = a })
          (record { integration = i; addon = (save_readiness_notice w notified a).0 })

-- From an integration that has never stored an owner.
pub data IsReachable : System → Type 0 where
  first : (a : Store) → IsReachable (record { integration = new_store missing; addon = a })
  next : {x y : System} → IsReachable x → SystemStep x y → IsReachable y

abbrev IsSafe : System → Type 0
IsSafe x = IsGuarded (is_sealed x.addon) x.integration

-- An exchange, up to the treatment of its answer.
received-IsGuarded :
    (i : OwnershipStore) (a a' : Store) (shown : Option AuthorityState) (w₀ w₁ w₂ : Write)
    (fresh : AddonState) (native : Bool) (answer : AddonAuthority)
    → receive w₀ w₁ w₂ fresh native (authority_owner shown i) a ≡ some (a', answer)
    → IsGuarded (is_sealed a) i
    → IsGuarded (is_sealed a') i
received-IsGuarded i a a' shown w₀ w₁ w₂ fresh native answer h g =
    let (keeps, _) = receive-sealed w₀ w₁ w₂ fresh native (authority_owner shown i) a a' answer h in
    elim (Bool-cases (same_owner (authority_owner shown i) Owner.addon)) [
      | inl e ↦
          addon-IsGuarded (is_sealed a) (is_sealed a') i (names_addon shown i (ground (arith, e))) g
      | inr e ↦ grow-IsGuarded (is_sealed a) (is_sealed a') i (keeps (λ q. ground (arith, e, q))) g
    ]

step-IsSafe : {x y : System} → SystemStep x y → IsSafe x → IsSafe y
unfolding construct
step-IsSafe (load {i} {a} w target) g =
    load-IsGuarded (is_sealed a) w target (new_store i.disk) g.disk
step-IsSafe (request {i} {a} w authority target summary t) g =
    request-IsGuarded (is_sealed a) w authority target summary i t g
step-IsSafe (withdraw {i} {a} w reason) g = abort-IsGuarded (is_sealed a) w reason i g
step-IsSafe
      (exchange {i} {a} {a'} shown w₀ w₁ w₂ fresh native answer w authority retires target summary h
        e)
      g =
    let (_, gone) = receive-sealed w₀ w₁ w₂ fresh native (authority_owner shown i) a a' answer h in
    advance-IsGuarded (is_sealed a') w authority retires target summary i
      (λ q. gone (ground (arith, e, q)))
      (received-IsGuarded i a a' shown w₀ w₁ w₂ fresh native answer h g)
step-IsSafe (lose_answer {i} {a} {a'} shown w₀ w₁ w₂ fresh native answer h) g =
    received-IsGuarded i a a' shown w₀ w₁ w₂ fresh native answer h g
step-IsSafe (start {i} {a} w₁ w₂ id now) g =
    grow-IsGuarded (is_sealed a) (is_sealed (start_process w₁ w₂ id now (construct a.files)).0) i
      (start-sealed w₁ w₂ id now (construct a.files)) g
step-IsSafe (confirm {i} {a} w₁ w₂ id now requester) g =
    grow-IsGuarded (is_sealed a) (is_sealed (confirm_observe w₁ w₂ id now requester a).0) i
      (confirm-sealed w₁ w₂ id now requester a) g
step-IsSafe (keep_holds {i} {a} w holds now) g =
    grow-IsGuarded (is_sealed a) (is_sealed (save_holds w holds now a).0) i
      (λ h. (saves-sealed w holds false "" false now a h).0) g
step-IsSafe (keep_fallback {i} {a} w active? cause now) g =
    grow-IsGuarded (is_sealed a) (is_sealed (save_fallback w active? cause now a).0) i
      (λ h. (saves-sealed w [] active? cause false now a h).1) g
step-IsSafe (keep_notice {i} {a} w notified) g =
    grow-IsGuarded (is_sealed a) (is_sealed (save_readiness_notice w notified a).0) i
      (λ h. (saves-sealed w [] false "" notified 0 a h).2) g

reachable-IsSafe : {x : System} → IsReachable x → IsSafe x
reachable-IsSafe (first a) = record {
  memory = λ n. ground (arith, n);
  disk = λ n. ground (arith, n);
  settled = λ _. refl;
}
reachable-IsSafe (next r s) = step-IsSafe s (reachable-IsSafe r)

names_integration :
    (authority : Option AuthorityState) (s : OwnershipStore)
    → authority_owner authority s ≡ Owner.integration
    → needs_retired s.owner ≡ true
unfolding authority_owner
names_integration authority s h = ground (arith, h)

-- In every reachable system, whatever restarts, failed or unconfirmed saves, lost answers and
-- withdrawn requests have led to it: while the integration takes itself for the owner, the add-on's
-- authority is unknown to its process and to any that loads its files.
pub owners-exclusive :
    (x : System) (authority : Option AuthorityState)
    → IsReachable x
    → authority_owner authority x.integration ≡ Owner.integration
    → IsFenced x.addon
owners-exclusive x authority r h =
    retirement-IsFenced x.addon
      ((reachable-IsSafe r).memory (names_integration authority x.integration h))
