-- ===== src/Api/Accepted.antt =====
-- internal/api/handlers.go: what an accepted vault and an accepted action token show.
use ghost_vault.Prelude.{
  ℕ, ◌<◌, ltb, ltb→lt, ◌≡◌, refl, sym, ap, ◌∙◌, Bool, true, false, if◌then◌else◌, Option, none,
  some, lookup,
}
use ghost_vault.Text.{text_eq}
use ghost_vault.Extern.{Uuids, eq_of_uuids}
use ghost_vault.Auth.{Session}
use ghost_vault.Auth.Manager.{unauthorized, backend, Outcome, done, refused}
use ghost_vault.Api.{
  ActionToken, VaultRow, Server, keyless, with_vault, unexpired, accept_plain, accept_vault,
}

done-inj : {A : Type 0} {a b : A} → done a ≡ done b → a ≡ b
done-inj h = cc h

module _ {U : Type 0} {sess : Session U} {v : U} where
  pub accept_plain-done :
      (vid : U) (o : Option VaultRow)
      → accept_plain vid o ≡ done (sess, v)
      → (row : VaultRow) × (o ≡ some row)
        × (row.encryption_enabled ≡ false)
        × (vid ≡ v)
        × (sess ≡ keyless v)
  accept_plain-done vid none h = absurd (cc h)
  accept_plain-done vid (some row) h =
      let (plain, e) = go row.encryption_enabled refl h in
      let same = ap (λ p. p.1) e in
      (row, refl, plain, same, sym (ap (λ p. p.0) e) ∙ ap keyless same)
    where
      go :
          (b : Bool)
          → row.encryption_enabled ≡ b
          → if◌then◌else◌ {A = Outcome (Session U × U)} b
              (refused unauthorized)
              (done (keyless vid, vid))
            ≡ done (sess, v)
          → (row.encryption_enabled ≡ false) × ◌≡◌ {A = Session U × U} (keyless vid, vid) (sess, v)
      go true e h' = absurd (cc h')
      go false e h' = (e, done-inj h')

  pub with_vault-done :
      (o : Outcome (Session U))
      → with_vault o ≡ done (sess, v)
      → (o ≡ done sess) × (sess.vault_id ≡ v)
  with_vault-done (refused e) h = absurd (cc h)
  with_vault-done (done t) h =
      let e = done-inj h in
      let same = ap (λ p. p.0) e in
      (ap done same, sym (ap (λ t'. t'.vault_id) same) ∙ ap (λ p. p.1) e)

pub unexpired-some :
    {U : Type 0} (now : ℕ) (o : Option (ActionToken U)) {vid : U}
    → unexpired now o ≡ some vid
    → (t : ActionToken U) × (o ≡ some t) × (now < t.expires_at) × (t.vault_id ≡ vid)
unexpired-some now none h = absurd (cc h)
unexpired-some {U} now (some t) {vid} h = go (ltb now t.expires_at) refl h
  where
    go :
        (b : Bool)
        → ltb now t.expires_at ≡ b
        → (if b then some t.vault_id else none) ≡ some vid
        → (t' : ActionToken U) × (some t ≡ some t') × (now < t'.expires_at) × (t'.vault_id ≡ vid)
    go true e h' = (t, refl, ltb→lt now t.expires_at e, cc h')
    go false e h' = absurd (cc h')

module _ {U : Type 0} ⦃i : Uuids U⦄ (s : Server U) {sess : Session U} {v : U} where
  pub accept_vault-done :
      (o : Option U)
      → accept_vault s (done o) ≡ done (sess, v)
      → (vid : U) × (o ≡ some vid) × (accept_plain vid (lookup vid s.vaults) ≡ done (sess, v))
  accept_vault-done none h = absurd (cc h)
  accept_vault-done (some vid) h = (vid, refl, go s.vault_fails h)
    where
      go :
          (b : Bool)
          → (if b then refused backend else accept_plain vid (lookup vid s.vaults)) ≡ done (sess, v)
          → accept_plain vid (lookup vid s.vaults) ≡ done (sess, v)
      go true h' = absurd (cc h')
      go false h' = h'
