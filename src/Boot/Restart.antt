-- ===== src/Boot/Restart.antt =====
-- cmd/gvsvd/main.go: what the tokens of before are worth after a restart.
use ghost_vault.Prelude.{
  ℕ, ◌+◌, ◌%◌, ◌^◌, ◌≡◌, refl, sym, ap, ◌∙◌, true, false, ◌||◌, none, some, List, [], ◌∷◌, All,
  Assoc, lookup, Bool-cases, inl, inr, arith,
}
use ghost_vault.Text.{Text, text_eq, codes, is_empty, text_beq}
use ghost_vault.Extern.{Uuids, eq_of_uuids}
use ghost_vault.Config.{Config}
use ghost_vault.Auth.{Session}
use ghost_vault.Auth.Manager.{
  SessionRow, Manager, Faults, done, refused, unauthorized, is_stale, refresh, session_of_row,
  touch, touch_cold, find_row_of_token,
}
use ghost_vault.Auth.Lifetime.{touch-found}
use ghost_vault.Crypto.{returned, Primitives, WrappedDek, wrap_dek, unwrap_dek}
use ghost_vault.Crypto.Wrapping.{IsPrimitives, IsFull, wrapped_for_argon}
use ghost_vault.Api.{VaultRow}
use ghost_vault.Api.Vaults.{get_any_vault, wrapped_row}
use ghost_vault.Boot.{
  Machine, booted, ◌>>=◌, read_auto_unlock_password, Rows, Initial, purge_sessions_for_vault,
  assert_encryption_mode, init_vault, init_auth_mode, manager_of, boot,
}
use ghost_vault.Boot.Checked.{booted-inj, >>=-booted, if-stopped}

returned-inj : {A : Type 0} {a b : A} → returned a ≡ returned b → a ≡ b
returned-inj h = cc h

-- A row, if it is the token's, belongs to the vault.
abbrev pub IsOfVault : {U : Type 0} → U → List ℕ → List ℕ × SessionRow U → Type 0
IsOfVault id hashed (h, r) = text_eq.beq h hashed ≡ true → r.vault_id ≡ id

lookup-purge :
    {U : Type 0} ⦃i : Uuids U⦄ (id : U) (hashed : List ℕ) (rows : Rows U)
    → All (IsOfVault id hashed) rows
    → lookup hashed (purge_sessions_for_vault id rows) ≡ none
unfolding lookup purge_sessions_for_vault
lookup-purge id hashed [] all = refl
lookup-purge ⦃i⦄ id hashed ((h, r) ∷ rows) (mine, all) =
    elim (Bool-cases (i.id_eq.beq r.vault_id id)) [
      | inl e ↦ rw (e, purge_sessions_for_vault) (lookup-purge id hashed rows all)
      | inr e ↦ elim (Bool-cases (text_eq.beq h hashed)) [
        | inl e' ↦ absurd (ground (arith, e, (i.id_eq.beq_iff r.vault_id id).1 (mine e')))
        | inr e' ↦ rw (e, purge_sessions_for_vault, e') (lookup-purge id hashed rows all)
      ]
    ]

module _ {U : Type 0} ⦃i : Uuids U⦄ (machine : Machine) (lib : Primitives) (zero_id : U)
    (rows : Rows U) (id : U) (hash : Text → List ℕ) (g : Faults) (token : Text) (now : ℕ)
    (cfg : Config) (vaults : Assoc U VaultRow) where
  init_vault-session :
      (v : VaultRow) {initial : Initial U}
      → (text_beq v.auth_mode (codes "session") || is_empty v.auth_mode) ≡ true
      → init_vault machine lib zero_id (some (id, v)) rows ≡ booted initial
      → (record { id = id; dek = [] }, purge_sessions_for_vault id rows) ≡ initial
  unfolding init_vault
  init_vault-session v e h = booted-inj (if-stopped machine.purge_fails _ _ (rw e at h)).1

  touch-unknown :
      (m : Manager U)
      → lookup token m.sessions ≡ none
      → lookup (hash token) m.rows ≡ none
      → (touch hash g token now m).0 ≡ refused unauthorized
  unfolding touch touch_cold find_row_of_token
  touch-unknown m e e' = ground (arith, e, e')

  -- A restart in the mode `session` ends every session of the vault: once the server has started, a
  -- token is refused as unknown, whatever row it had before, if that row was one of the vault.
  pub touch-boot_session :
      (v : VaultRow) {m : Manager U}
      → get_any_vault vaults ≡ some (id, v)
      → (text_beq v.auth_mode (codes "session") || is_empty v.auth_mode) ≡ true
      → All (IsOfVault id (hash token)) rows
      → boot machine lib zero_id cfg vaults rows ≡ booted m
      → (touch hash g token now m).0 ≡ refused unauthorized
  unfolding boot init_auth_mode lookup
  touch-boot_session v first mode mine h =
      let (t, _, h₁) = >>=-booted _ _ h in
      let (initial, made, h₂) = >>=-booted _ _ h₁ in
      let (_, inited) = if-stopped machine.vault_fails _ _ made in
      let from_vault = ap (λ o. init_vault machine lib zero_id o rows) (sym first) ∙ inited in
      let same =
        ap (manager_of machine lib zero_id cfg) (init_vault-session v mode from_vault)
        ∙ booted-inj h₂ in
      ap (λ n. (touch hash g token now n).0) (sym same)
      ∙ touch-unknown _ refl (lookup-purge id (hash token) rows mine)

  -- The session that Touch makes of a row that a server started with.
  touch-row :
      (m : Manager U) (row : SessionRow U)
      → is_empty token ≡ false
      → lookup token m.sessions ≡ none
      → m.has_store ≡ true
      → g.get_fails ≡ false
      → lookup (hash token) m.rows ≡ some row
      → is_stale now row.max_until row.last_seen m.idle ≡ false
      → (touch hash g token now m).0
        ≡ done (record (session_of_row hash g token m row) {
          last_seen = now;
          expires_at = now + m.idle;
        })
  unfolding touch_cold find_row_of_token refresh session_of_row
  touch-row m row named unknown store got found fresh =
      rw (touch-found hash g token now m named, unknown, store, got, found, fresh) refl

  module _ (w : WrappedDek) (password : Text) (dek : List ℕ) where
    abbrev auto_row : VaultRow
    auto_row = wrapped_row (codes "auto_unlock") w

    init_vault-auto_unlock :
        read_auto_unlock_password machine ≡ some password
        → w.parallelism ≡ 4
        → unwrap_dek lib password w ≡ returned dek
        → init_vault machine lib zero_id (some (id, auto_row)) rows
          ≡ booted (record { id = id; dek = dek }, rows)
    unfolding init_vault text_beq
    init_vault-auto_unlock read threads e =
        let eight : w.parallelism % 2 ^ 8 ≡ w.parallelism = omega (arith, threads) in
        rw (read, eight, e) refl

    init_auth_mode-vault :
        machine.vault_fails ≡ false
        → init_auth_mode machine lib zero_id vaults rows
          ≡ init_vault machine lib zero_id (get_any_vault vaults) rows
    unfolding init_auth_mode
    init_auth_mode-vault h = rw h refl

    assert-auto_unlock :
        machine.assert_fails ≡ false
        → get_any_vault vaults ≡ some (id, auto_row)
        → cfg.encryption_on ≡ true
        → assert_encryption_mode machine cfg.encryption_on vaults ≡ booted tt
    unfolding assert_encryption_mode
    assert-auto_unlock asserts first on = rw (asserts, first, on) refl

    unwrap-wrapped :
        IsPrimitives lib
        → IsFull lib
        → wrap_dek lib password dek ≡ returned w
        → (unwrap_dek lib password w ≡ returned dek) × (w.parallelism ≡ 4)
    unwrap-wrapped laws full wrapped =
        let (w', wrapped', unwrapped, threads) = wrapped_for_argon lib laws full password dek in
        let same : w' ≡ w = returned-inj (sym wrapped' ∙ wrapped) in
        (
          ap (unwrap_dek lib password) (sym same) ∙ unwrapped,
          ap (λ (v : WrappedDek). v.parallelism) (sym same) ∙ threads,
        )

    -- A restart in the mode `auto_unlock` ends no session: where the vault's key was wrapped under the
    -- password that the server is configured with, the encryption setting is the vault's, and no
    -- statement fails, the server starts, and a token whose row is fresh works, for the vault of its
    -- row and with the same data key.
    pub touch-boot_auto_unlock :
        (row : SessionRow U)
        → IsPrimitives lib
        → IsFull lib
        → wrap_dek lib password dek ≡ returned w
        → get_any_vault vaults ≡ some (id, auto_row)
        → read_auto_unlock_password machine ≡ some password
        → cfg.encryption_on ≡ true
        → machine.assert_fails ≡ false
        → machine.vault_fails ≡ false
        → g.get_fails ≡ false
        → is_empty token ≡ false
        → lookup (hash token) rows ≡ some row
        → is_stale now row.max_until row.last_seen cfg.session_idle ≡ false
        → (m : Manager U) × (s : Session U) × (boot machine lib zero_id cfg vaults rows ≡ booted m)
          × ((touch hash g token now m).0 ≡ done s)
          × (s.vault_id ≡ row.vault_id)
          × (s.dek ≡ dek)
    unfolding boot ◌>>=◌ lookup session_of_row
    touch-boot_auto_unlock row laws full wrapped first read on asserts vault_read got named found
          fresh =
        let (unwrapped, threads) = unwrap-wrapped laws full wrapped in
        let inited =
          init_auth_mode-vault vault_read
          ∙ ap (λ o. init_vault machine lib zero_id o rows) first
          ∙ init_vault-auto_unlock read threads unwrapped in
        let m = manager_of machine lib zero_id cfg (record { id = id; dek = dek }, rows) in
        (
          m,
          record (session_of_row hash g token m row) {
            last_seen = now;
            expires_at = now + cfg.session_idle;
          },
          rw (assert-auto_unlock asserts first on, inited) refl,
          touch-row m row named refl refl got found fresh,
          refl,
          refl,
        )
