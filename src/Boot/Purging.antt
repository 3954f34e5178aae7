-- ===== src/Boot/Purging.antt =====
-- internal/store/store.go: the session rows that PurgeSessionsForVault leaves.
use mathlib.Core.Logic.Or
use mathlib.Core.List.{Mem, Mem-prop, mem-cons, mem-cons_self, mem-cons_of_mem}
use ghost_vault.Prelude.{◌≡◌, ◌≢◌, ap, ◌∙◌, All, List, [], ◌∷◌, ℕ, Bool-cases, inl, inr, arith}
use ghost_vault.Extern.{Uuids}
use ghost_vault.Auth.Manager.{SessionRow}
use ghost_vault.Boot.{Rows, purge_sessions_for_vault}

-- Of the rows exactly those of other vaults.
pub record IsPurged {U : Type 0} (id : U) (rows kept : Rows U) : Type 0 where
  pub gone : All (λ e. e.1.vault_id ≢ id) kept
  pub old : (e : List ℕ × SessionRow U) → Mem e kept → Mem e rows
  pub others : (e : List ℕ × SessionRow U) → Mem e rows → e.1.vault_id ≢ id → Mem e kept

module _ {U : Type 0} ⦃i : Uuids U⦄ (id : U) where
  cons-IsPurged :
      (e : List ℕ × SessionRow U) (rows kept : Rows U)
      → e.1.vault_id ≢ id
      → IsPurged id rows kept
      → IsPurged id (e ∷ rows) (e ∷ kept)
  cons-IsPurged e rows kept other h = record {
    gone = (other, h.gone);
    old = λ x m.
        Or.elim Mem-prop (mem-cons.0 m) (λ p. rw p mem-cons_self)
          (λ m'. mem-cons_of_mem e (h.old x m'));
    others = λ x m ne.
        Or.elim Mem-prop (mem-cons.0 m) (λ p. rw p mem-cons_self)
          (λ m'. mem-cons_of_mem e (h.others x m' ne));
  }

  skip-IsPurged :
      (e : List ℕ × SessionRow U) (rows kept : Rows U)
      → e.1.vault_id ≡ id
      → IsPurged id rows kept
      → IsPurged id (e ∷ rows) kept
  skip-IsPurged e rows kept mine h = record {
    gone = h.gone;
    old = λ x m. mem-cons_of_mem e (h.old x m);
    others = λ x m ne.
        Or.elim Mem-prop (mem-cons.0 m) (λ p. absurd (ne (ap (λ y. y.1.vault_id) p ∙ mine)))
          (λ m'. h.others x m' ne);
  }

  pub purge-IsPurged : (rows : Rows U) → IsPurged id rows (purge_sessions_for_vault id rows)
  unfolding purge_sessions_for_vault
  purge-IsPurged [] = record { gone = tt; old = λ e m. m; others = λ e m ne. m }
  purge-IsPurged ((h, r) ∷ rows) = elim (Bool-cases (i.id_eq.beq r.vault_id id)) [
    | inl e ↦
        rw (e, purge_sessions_for_vault)
          (skip-IsPurged (h, r) rows (purge_sessions_for_vault id rows)
            ((i.id_eq.beq_iff r.vault_id id).0 e) (purge-IsPurged rows))
    | inr e ↦
        rw (e, purge_sessions_for_vault)
          (cons-IsPurged (h, r) rows (purge_sessions_for_vault id rows)
            (λ p. ground (arith, e, (i.id_eq.beq_iff r.vault_id id).1 p)) (purge-IsPurged rows))
  ]
