-- ===== src/Api/Vaults/Racing.antt =====
-- internal/api/handlers.go: how many vaults vaultInit makes, one request after another and side by
-- side. A request reads the table of vaults first and inserts its row later, in no transaction.
use ghost_vault.Prelude.{
  ℕ, zero, suc, ◌+◌, ◌≤◌, ◌<◌, ◌≡◌, refl, ap, ◌∙◌, Bool, true, false, none, some, List, [], ◌∷◌,
  Assoc, lookup, insert, length, arith, Eq, Bool-cases, inl, inr, lookup-insert,
}
use mathlib.Core.Path.{subst}
use ghost_vault.Text.{Text, text_beq, codes, trim_space}
use ghost_vault.Extern.{Uuids, eq_of_uuids}
use ghost_vault.Crypto.{Attempt, returned, failed, panicked, Primitives, WrappedDek}
use ghost_vault.Auth.Manager.{is_valid_auth_mode}
use ghost_vault.Api.{VaultRow, Server}
use ghost_vault.Api.Vaults.{
  BodyRead, decoded, at_eof, malformed, Io, InitBody, get_any_vault, mode_or_session, plain_row,
  insert_vault, insert_wrapped, insert_mode, init_with, init_body, init_unless, vault_init,
}

module _ {K V : Type 0} ⦃e : Eq K⦄ (k : K) (v : V) where
  length-insert : (m : Assoc K V) → length (insert k v m) ≤ length m + 1
  unfolding insert
  length-insert [] = omega arith
  length-insert ((j, w) ∷ m) = ground (arith, length-insert m)

  length-insert_new : (m : Assoc K V) → lookup k m ≡ none → length (insert k v m) ≡ length m + 1
  unfolding insert lookup
  length-insert_new [] h = omega arith
  length-insert_new ((j, w) ∷ m) h = ground (arith, length-insert_new m)

-- The server, and how many requests have read the table of vaults and not yet inserted.
pub record Racing (U : Type 0) : Type 0 where
  pub server : Server U
  pub checked : ℕ

module _ {U : Type 0} ⦃i : Uuids U⦄ where
  abbrev pub vaults_of : Server U → ℕ
  vaults_of s = length s.vaults

  module _ (io : Io U) where
    insert_vault_le :
        (row : VaultRow) (s : Server U) → vaults_of (insert_vault io row s).1 ≤ vaults_of s + 1
    unfolding insert_vault
    insert_vault_le row s = let e = length-insert io.new_id row s.vaults in ground (arith, e)

    module _ (lib : Primitives) (on : Bool) where
      insert_wrapped_le :
          (mode : Text) (s : Server U) (r : Attempt WrappedDek)
          → vaults_of (insert_wrapped io lib on mode s r).1 ≤ vaults_of s + 1
      insert_wrapped_le mode s (returned w) = insert_vault_le _ s
      insert_wrapped_le mode s (failed e) = omega arith
      insert_wrapped_le mode s panicked = omega arith

      insert_mode_le :
          (b : Bool) (mode password : Text) (s : Server U)
          → vaults_of (insert_mode io lib on b mode password s).1 ≤ vaults_of s + 1
      insert_mode_le true mode password s = insert_wrapped_le mode s _
      insert_mode_le false mode password s = insert_vault_le _ s

      -- Whatever it is asked, a request adds at most one vault.
      init_with_le :
          (b : InitBody) (s : Server U) → vaults_of (init_with io lib on b s).1 ≤ vaults_of s + 1
      unfolding init_with
      init_with_le b s =
          let e = insert_mode_le on (mode_or_session b.auth_mode) b.password s in ground (arith, e)

      init_body_le :
          (body : BodyRead InitBody) (s : Server U)
          → vaults_of (init_body io lib on body s).1 ≤ vaults_of s + 1
      init_body_le (decoded b) s = init_with_le b s
      init_body_le at_eof s = init_with_le _ s
      init_body_le malformed s = omega arith

      one_at_most :
          (body : BodyRead InitBody) (s : Server U) (vs : Assoc U VaultRow)
          → s.vaults ≡ vs
          → length vs ≤ 1
          → vaults_of (init_unless io lib on (get_any_vault vs) body s).1 ≤ 1
      one_at_most body s [] e h = let le = init_body_le body s in omega (arith, le, ap length e)
      one_at_most body s (v ∷ vs) e h = omega (arith, ap length e, h)

      vault_init_le :
          (body : BodyRead InitBody) (s : Server U)
          → vaults_of s ≤ 1
          → vaults_of (vault_init io lib on body s).1 ≤ 1
      unfolding vault_init
      vault_init_le body s h = let le = one_at_most body s s.vaults refl h in ground (arith, le, h)

  module _ (lib : Primitives) (on : Bool) where
    -- Requests to `vault_init`, each with what it meets, served one after another.
    unfoldable pub init_all : List (Io U × BodyRead InitBody) → Server U → Server U
    init_all [] s = s
    init_all ((io, body) ∷ calls) s = init_all calls (vault_init io lib on body s).1

    -- However many requests to `vault_init` are served one after another, and whatever they ask and
    -- meet, they leave at most one vault where there was at most one.
    pub init_all_le :
        (calls : List (Io U × BodyRead InitBody)) (s : Server U)
        → vaults_of s ≤ 1
        → vaults_of (init_all calls s) ≤ 1
    unfolding init_all
    init_all_le [] s h = h
    init_all_le ((io, body) ∷ calls) s h = init_all_le calls _ (vault_init_le io lib on body s h)

    -- One access of one request: the read of `vault_init`, or all that follows it.
    pub data InitStep (t : Racing U) : Racing U → Type 0 where
      reads :
          get_any_vault t.server.vaults ≡ none → InitStep t (record t { checked = suc t.checked })
      turned_away : (v : U × VaultRow) → get_any_vault t.server.vaults ≡ some v → InitStep t t
      inserts :
          {n : ℕ} (io : Io U) (body : BodyRead InitBody)
          → t.checked ≡ suc n
          → InitStep t (record { server = (init_body io lib on body t.server).1; checked = n })

    pub data Reach (s : Server U) : Racing U → Type 0 where
      start : Reach s (record { server = s; checked = zero })
      later : {t t' : Racing U} → Reach s t → InitStep t t' → Reach s t'

  module _ (lib : Primitives) (ids : ℕ → U) (distinct : (a b : ℕ) → ids a ≡ ids b → a ≡ b)
      (s : Server U) where
    abbrev io_of : ℕ → Io U
    io_of n = record {
      any_fails = false;
      vault_insert_fails = false;
      token_insert_fails = false;
      new_id = ids n;
      token = none;
    }

    abbrev session_row : VaultRow
    session_row = plain_row (codes "session")

    tables : ℕ → Assoc U VaultRow
    tables zero = []
    tables (suc n) = insert (ids n) session_row (tables n)

    apart : (n k : ℕ) → n < k → i.id_eq.beq (ids n) (ids k) ≡ false
    apart n k h = elim (Bool-cases (i.id_eq.beq (ids n) (ids k))) [
      | inl e ↦ absurd (omega (arith, distinct n k ((i.id_eq.beq_iff _ _).0 e), h))
      | inr e ↦ e
    ]

    lookup-tables : (n k : ℕ) → n ≤ k → lookup (ids k) (tables n) ≡ none
    unfolding tables lookup
    lookup-tables zero k h = refl
    lookup-tables (suc n) k h =
        lookup-insert (ids n) (ids k) session_row (tables n)
        ∙ rw (apart n k (omega (arith, h))) (lookup-tables n k (omega (arith, h)))

    length-tables : (n : ℕ) → length (tables n) ≡ n
    unfolding tables
    length-tables zero = refl
    length-tables (suc n) =
        let e =
          length-insert_new (ids n) session_row (tables n) (lookup-tables n n (omega arith)) in
        omega (arith, e, length-tables n)

    abbrev with_vaults : Assoc U VaultRow → Server U
    with_vaults vs = record s { vaults = vs }

    init-plain :
        (n : ℕ) (vs : Assoc U VaultRow)
        → (init_body (io_of n) lib false at_eof (with_vaults vs)).1
          ≡ with_vaults (insert (ids n) session_row vs)
    unfolding init_with insert_vault mode_or_session is_valid_auth_mode text_beq trim_space
    init-plain n vs = refl

    all_read :
        (n : ℕ) → Reach lib false (with_vaults []) (record { server = with_vaults []; checked = n })
    all_read zero = start
    all_read (suc n) = later (all_read n) (reads refl)

    inserted :
        (k n : ℕ)
        → Reach lib false (with_vaults []) (record { server = with_vaults (tables k); checked = n })
    unfolding tables
    inserted zero n = all_read n
    inserted (suc k) n =
        subst (λ t. Reach lib false (with_vaults []) (record { server = t; checked = n }))
          (init-plain k (tables k)) (later (inserted k (suc n)) (inserts (io_of k) at_eof refl))

    -- Requests to `vault_init` that are served side by side, here with encryption off, can make any
    -- number of vaults from an empty table: where all of them read the table before the first one
    -- inserts, each inserts its own.
    pub racing :
        (n : ℕ) → (t : Racing U) × Reach lib false (with_vaults []) t × (vaults_of t.server ≡ n)
    racing n = (
      record { server = with_vaults (tables n); checked = zero },
      inserted n zero,
      length-tables n,
    )
