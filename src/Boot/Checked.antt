-- ===== src/Boot/Checked.antt =====
-- cmd/gvsvd/main.go: what holds of a server that has started, and of one that has purged its sessions.
use mathlib.Core.Path.{subst}
use ghost_vault.Prelude.{
  ℕ, ◌≡◌, refl, sym, ap, ◌∙◌, Bool, true, false, ◌||◌, if◌then◌else◌, Option, none, some, List, [],
  Assoc, Bool-cases, inl, inr, arith,
}
use ghost_vault.Text.{Text, text_eq, codes, is_empty, text_beq}
use ghost_vault.Extern.{Uuids, eq_of_uuids}
use ghost_vault.Config.{Config}
use ghost_vault.Auth.Manager.{Manager, VaultState}
use ghost_vault.Crypto.{Attempt, returned, failed, panicked, Primitives, WrappedDek, unwrap_dek}
use ghost_vault.Api.{VaultRow}
use ghost_vault.Api.Vaults.{get_any_vault, kdf_of}
use ghost_vault.Boot.Purging.{IsPurged, purge-IsPurged}
use ghost_vault.Boot.{
  Machine, Booted, BootError, booted, stopped, ◌>>=◌, read_auto_unlock_password, Rows, Initial,
  matching, with_key, unlock_state, assert_encryption_mode, init_auto_unlock, init_vault,
  init_auth_mode, manager_of, boot,
}

pub booted-inj : {A : Type 0} {a b : A} → booted a ≡ booted b → a ≡ b
booted-inj h = cc h

pub >>=-booted :
    {A B : Type 0} (x : Booted A) (k : A → Booted B) {b : B}
    → (x >>= k) ≡ booted b
    → (a : A) × (x ≡ booted a) × (k a ≡ booted b)
unfolding ◌>>=◌
>>=-booted (booted a) k h = (a, refl, h)
>>=-booted (stopped e) k h = absurd (cc h)

pub if-stopped :
    {A : Type 0} (b : Bool) (e : BootError) (x : Booted A) {a : A}
    → (if b then stopped e else x) ≡ booted a
    → (b ≡ false) × (x ≡ booted a)
if-stopped true e x h = absurd (cc h)
if-stopped false e x h = (refl, h)

matching-booted :
    {U : Type 0} (want : Bool) (id : U) (v : VaultRow) {t : Unit {0}}
    → matching want (some (id, v)) ≡ booted t
    → v.encryption_enabled ≡ want
matching-booted true id v h = elim (Bool-cases v.encryption_enabled) [
  | inl e ↦ e
  | inr e ↦ absurd (ground (arith, e, h))
]
matching-booted false id v h = (if-stopped v.encryption_enabled _ _ h).0

module _ {U : Type 0} ⦃i : Uuids U⦄ (machine : Machine) (lib : Primitives) (id : U) (v : VaultRow)
    (rows : Rows U) where
  -- The rows and the key that a server may start with: in the mode `session` the rows of the other
  -- vaults and no key; in the mode `auto_unlock` all rows, and, if the vault is encrypted, the key that the
  -- configured password unwraps.
  pub data IsBooted : Initial U → Type 0 where
    purged :
        (others : Rows U)
        → (text_beq v.auth_mode (codes "session") || is_empty v.auth_mode) ≡ true
        → IsPurged id rows others
        → IsBooted (record { id = id; dek = [] }, others)
    kept :
        text_beq v.auth_mode (codes "auto_unlock") ≡ true
        → v.encryption_enabled ≡ false
        → IsBooted (record { id = id; dek = [] }, rows)
    unlocked :
        (password : Text) (w : WrappedDek) (dek : List ℕ)
        → text_beq v.auth_mode (codes "auto_unlock") ≡ true
        → v.encryption_enabled ≡ true
        → read_auto_unlock_password machine ≡ some password
        → kdf_of v v.argon_time v.argon_memory_kb v.argon_parallelism ≡ some w
        → unwrap_dek lib password w ≡ returned dek
        → IsBooted (record { id = id; dek = dek }, rows)

  with_key-IsBooted :
      (password : Text) (w : WrappedDek) (r : Attempt (List ℕ)) {initial : Initial U}
      → text_beq v.auth_mode (codes "auto_unlock") ≡ true
      → v.encryption_enabled ≡ true
      → read_auto_unlock_password machine ≡ some password
      → kdf_of v v.argon_time v.argon_memory_kb v.argon_parallelism ≡ some w
      → unwrap_dek lib password w ≡ r
      → with_key id rows r ≡ booted initial
      → IsBooted initial
  with_key-IsBooted password w (returned dek) mode enc read kdf e h =
      subst IsBooted (booted-inj h) (unlocked password w dek mode enc read kdf e)
  with_key-IsBooted password w (failed x) mode enc read kdf e h = absurd (cc h)
  with_key-IsBooted password w panicked mode enc read kdf e h = absurd (cc h)

  unlock_state-IsBooted :
      (p : Option Text) (w : Option WrappedDek) {initial : Initial U}
      → text_beq v.auth_mode (codes "auto_unlock") ≡ true
      → v.encryption_enabled ≡ true
      → read_auto_unlock_password machine ≡ p
      → kdf_of v v.argon_time v.argon_memory_kb v.argon_parallelism ≡ w
      → unlock_state lib id rows p w ≡ booted initial
      → IsBooted initial
  unlock_state-IsBooted none w mode enc read kdf h = absurd (cc h)
  unlock_state-IsBooted (some password) none mode enc read kdf h = absurd (cc h)
  unlock_state-IsBooted (some password) (some w) mode enc read kdf h =
      with_key-IsBooted password w _ mode enc read kdf refl h

  auto_unlock-IsBooted :
      (initial : Initial U)
      → text_beq v.auth_mode (codes "auto_unlock") ≡ true
      → init_auto_unlock machine lib id v rows ≡ booted initial
      → IsBooted initial
  auto_unlock-IsBooted initial mode h = elim (Bool-cases v.encryption_enabled) [
    | inl e ↦ unlock_state-IsBooted _ _ mode e refl refl (rw e at h)
    | inr e ↦ subst IsBooted (booted-inj (rw e at h)) (kept mode e)
  ]

  module _ (zero_id : U) where
    init_vault-IsBooted :
        {initial : Initial U}
        → init_vault machine lib zero_id (some (id, v)) rows ≡ booted initial
        → IsBooted initial
    unfolding init_vault
    init_vault-IsBooted {initial} h =
        elim (Bool-cases (text_beq v.auth_mode (codes "session") || is_empty v.auth_mode)) [
          | inl e ↦
              let (_, h') = if-stopped machine.purge_fails _ _ (rw e at h) in
              subst IsBooted (booted-inj h') (purged _ e (purge-IsPurged id rows))
          | inr e ↦ elim (Bool-cases (text_beq v.auth_mode (codes "auto_unlock"))) [
            | inl e' ↦ auto_unlock-IsBooted initial e' (rw (e, e') at h)
            | inr e' ↦ absurd (ground (arith, e, e', h))
          ]
        ]

    -- What a started server holds: no session in its map, the settings of the configuration, and a
    -- vault state and rows that it may start with.
    pub record IsStarted (cfg : Config) (m : Manager U) : Type 0 where
      pub state : VaultState U
      pub from_rows : IsBooted (state, m.rows)
      pub has_state : m.state ≡ some state
      pub no_sessions : m.sessions ≡ []
      pub idle : m.idle ≡ cfg.session_idle
      pub max : m.max ≡ cfg.session_max
      pub stored : m.has_store ≡ true

    manager_of-IsStarted :
        (cfg : Config) (initial : Initial U)
        → IsBooted initial
        → IsStarted cfg (manager_of machine lib zero_id cfg initial)
    manager_of-IsStarted cfg (state, rows') h = record {
      state = state;
      from_rows = h;
      has_state = refl;
      no_sessions = refl;
      idle = refl;
      max = refl;
      stored = refl;
    }

    -- A server on a vault starts only with the encryption setting of that vault, with no session in its
    -- map, the durations of the configuration, and the rows and the key that the vault's mode allows:
    -- in the mode `session`, which is also the empty mode, the rows of all other vaults, none of its
    -- own, and no key; in the mode `auto_unlock` all rows, and the key that the configured password
    -- unwraps if the vault is encrypted. Any other mode, or a wrong password, stops it.
    pub boot_sound :
        (cfg : Config) (vaults : Assoc U VaultRow) {m : Manager U}
        → get_any_vault vaults ≡ some (id, v)
        → boot machine lib zero_id cfg vaults rows ≡ booted m
        → (v.encryption_enabled ≡ cfg.encryption_on) × IsStarted cfg m
    unfolding boot assert_encryption_mode init_auth_mode
    boot_sound cfg vaults first h =
        let (t, asserted, h₁) = >>=-booted _ _ h in
        let (initial, made, h₂) = >>=-booted _ _ h₁ in
        let (_, same) = if-stopped machine.assert_fails _ _ asserted in
        let (_, inited) = if-stopped machine.vault_fails _ _ made in
        let matched = ap (matching cfg.encryption_on) (sym first) ∙ same in
        let from_vault = ap (λ o. init_vault machine lib zero_id o rows) (sym first) ∙ inited in
        (
          matching-booted cfg.encryption_on id v matched,
          subst (IsStarted cfg) (booted-inj h₂)
              (manager_of-IsStarted cfg initial (init_vault-IsBooted from_vault)),
        )
