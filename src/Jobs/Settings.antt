-- ===== src/Jobs/Settings.antt =====
-- ingestion/liveness.py: the runtime settings, which fail closed.
use rag_support_assistant.Prelude.{
  ℕ, zero, suc, ℤ, pos, negsuc, Option, none, some, leb, if◌then◌else◌, ◌≡◌, ◌⊎◌, ◌<◌, inl, inr,
  refl, arith, Bool-cases,
}
use rag_support_assistant.Jobs.{Result, ok, err, invalid_config}

-- one setting as it is found: the environment variable, if there is one, and the attribute of the
-- settings object, if that can be read and is not `None`; each as `int()` reads it
pub record Source : Type 0 where
  pub env : Option (Option ℤ)
  pub configured : Option (Option ℤ)

positive : Option ℤ → Result ℕ
positive none = err invalid_config
positive (some (negsuc n)) = err invalid_config
positive (some (pos zero)) = err invalid_config
positive (some (pos (suc n))) = ok (suc n)

-- `_settings_int`
unfoldable pub settings_int : Source → ℕ → Result ℕ
unfolding positive
settings_int s default = elim s.env [
  | some raw ↦ positive raw
  | none ↦ elim s.configured [ some raw ↦ positive raw | none ↦ ok default ]
]

pub record Config : Type 0 where
  pub lease : Source
  pub heartbeat : Source
  pub queued_stale : Source
  pub legacy_running_stale : Source

infixl 5 ◌>>=◌
abbrev pub ◌>>=◌ {ℓ κ} : {A : Type ℓ} {B : Type κ} → Result A → (A → Result B) → Result B
ok a >>= f = f a
err e >>= f = err e

unfoldable pub lease_duration_sec : Config → Result ℕ
unfolding settings_int
lease_duration_sec c = do
  lease ← settings_int c.lease 120
  heartbeat ← settings_int c.heartbeat 30
  if leb lease heartbeat then err invalid_config else ok lease

unfoldable pub heartbeat_interval_sec : Config → Result ℕ
unfolding settings_int
heartbeat_interval_sec c = do
  heartbeat ← settings_int c.heartbeat 30
  lease ← settings_int c.lease 120
  if leb lease heartbeat then err invalid_config else ok heartbeat

unfoldable pub queued_stale_sec : Config → Result ℕ
unfolding settings_int
queued_stale_sec c = settings_int c.queued_stale 900

unfoldable pub legacy_running_stale_sec : Config → Result ℕ
unfolding settings_int
legacy_running_stale_sec c = settings_int c.legacy_running_stale 1800

positive_cases :
    (v : Option ℤ) → (positive v ≡ err invalid_config) ⊎ ((n : ℕ) × (positive v ≡ ok n) × (0 < n))
unfolding positive
positive_cases none = inl refl
positive_cases (some (negsuc n)) = inl refl
positive_cases (some (pos zero)) = inl refl
positive_cases (some (pos (suc n))) = inr (suc n, refl, omega arith)

pub settings_int_cases :
    (s : Source) (default : ℕ)
    → 0 < default
    → (settings_int s default ≡ err invalid_config)
      ⊎ ((n : ℕ) × (settings_int s default ≡ ok n) × (0 < n))
unfolding settings_int
settings_int_cases s default h = go s.env s.configured
  where
    go :
        (env configured : Option (Option ℤ))
        → let r : Result ℕ = elim env [
          | some raw ↦ positive raw
          | none ↦ elim configured [ some raw ↦ positive raw | none ↦ ok default ]
        ] in
          (r ≡ err invalid_config) ⊎ ((n : ℕ) × (r ≡ ok n) × (0 < n))
    go (some raw) configured = positive_cases raw
    go none (some raw) = positive_cases raw
    go none none = inr (default, refl, h)

decided :
    (l h : ℕ)
    → 0 < h
    → (((if leb l h then err invalid_config else ok l) ≡ err invalid_config)
        × ((if leb l h then err invalid_config else ok h) ≡ err invalid_config))
      ⊎ ((lease : ℕ) × (heartbeat : ℕ) × ((if leb l h then err invalid_config else ok l) ≡ ok lease)
          × ((if leb l h then err invalid_config else ok h) ≡ ok heartbeat)
          × (0 < heartbeat)
          × (heartbeat < lease))
decided l h more = elim (Bool-cases (leb l h)) [
  | inl late ↦ inl (rw late refl, rw late refl)
  | inr early ↦ inr (l, h, rw early refl, rw early refl, more, ground arith)
]

-- The lease and the heartbeat interval are accepted together or refused together, and an accepted
-- interval is positive and strictly shorter than the accepted lease.
pub lease_heartbeat_lem :
    (c : Config)
    → ((lease_duration_sec c ≡ err invalid_config)
        × (heartbeat_interval_sec c ≡ err invalid_config))
      ⊎ ((lease : ℕ) × (heartbeat : ℕ) × (lease_duration_sec c ≡ ok lease)
          × (heartbeat_interval_sec c ≡ ok heartbeat)
          × (0 < heartbeat)
          × (heartbeat < lease))
unfolding lease_duration_sec heartbeat_interval_sec
lease_heartbeat_lem c = elim (settings_int_cases c.lease 120 (omega arith)) [
  | inl bad ↦ elim (settings_int_cases c.heartbeat 30 (omega arith)) [
    | inl worse ↦ inl (rw bad refl, rw worse refl)
    | inr (h, fine, more) ↦ inl (rw bad refl, rw (fine, bad) refl)
  ]
  | inr (l, good, most) ↦ elim (settings_int_cases c.heartbeat 30 (omega arith)) [
    | inl worse ↦ inl (rw (good, worse) refl, rw worse refl)
    | inr (h, fine, more) ↦ rw (good, fine) (decided l h more)
  ]
]
