-- ===== src/Auth/Manager.antt =====
-- internal/auth/session.go: the manager of sessions, with the rows of the sessions table behind it.
-- A call is one step here: Touch gives the manager's lock up between its parts, and what another call
-- does in between is not modelled. Times are nanoseconds that do not go below the year 1.
use ghost_vault.Prelude.{
  ℕ, ◌+◌, ◌-◌, Bool, true, false, not, ◌&&◌, ◌||◌, Option, none, some, List, [], ◌∷◌, if◌then◌else◌,
  ltb, Assoc, lookup, insert, remove,
}
use ghost_vault.Text.{Text, codes, is_empty, text_beq, text_eq}
use ghost_vault.Auth.{Session}

pub data AuthError : Type 0 where
  unauthorized vault_locked backend : AuthError

pub data Outcome (A : Type 0) : Type 0 where
  done : A → Outcome A
  refused : AuthError → Outcome A

-- A row of the sessions table.
pub record SessionRow (U : Type 0) : Type 0 where
  pub token_hash : List ℕ
  pub vault_id : U
  pub created_at : ℕ
  pub last_seen : ℕ
  pub expires_at : ℕ
  pub max_until : ℕ

-- The process-wide vault: `none` is a nil pointer, a DEK of no bytes a nil DEK.
pub record VaultState (U : Type 0) : Type 0 where
  pub id : U
  pub dek : List ℕ

-- The map of sessions by token, and the table by token hash; `has_store` is `m.store != nil`.
pub record Manager (U : Type 0) : Type 0 where
  pub sessions : Assoc Text (Session U)
  pub idle : ℕ
  pub max : ℕ
  pub has_store : Bool
  pub rows : Assoc (List ℕ) (SessionRow U)
  pub state : Option (VaultState U)

-- Which statement of a call fails.
pub record Faults : Type 0 where
  pub insert_fails : Bool
  pub get_fails : Bool
  pub touch_fails : Bool
  pub delete_fails : Bool

abbrev pub no_dek : List ℕ → Bool
no_dek [] = true
no_dek (b ∷ bs) = false

-- `now.After(row.MaxUntil) || now.Sub(row.LastSeen) > m.idle`
abbrev pub is_stale : ℕ → ℕ → ℕ → ℕ → Bool
is_stale now max_until last_seen idle = ltb max_until now || ltb idle (now - last_seen)

module _ {U : Type 0} where
  abbrev pub new_manager : ℕ → ℕ → Bool → Option (VaultState U) → Manager U
  new_manager idle max has_store state = record {
    sessions = [];
    idle = idle;
    max = max;
    has_store = has_store;
    rows = [];
    state = state;
  }

  abbrev pub set_vault_state : Option (VaultState U) → Manager U → Manager U
  set_vault_state state m = record m { state = state }

  -- `m.state != nil && len(m.state.DEK) == 0 && len(dek) > 0`
  unfoldable pub fill_state : U → List ℕ → Option (VaultState U) → Option (VaultState U)
  fill_state vault dek none = none
  fill_state vault dek (some s) =
      if no_dek s.dek && not (no_dek dek) then some (record { id = vault; dek = dek }) else some s

  abbrev pub state_dek : Option (VaultState U) → List ℕ
  state_dek none = []
  state_dek (some s) = s.dek

  -- `InsertSession`, where there is a store.
  abbrev pub insert_row :
      Bool → SessionRow U → Assoc (List ℕ) (SessionRow U) → Assoc (List ℕ) (SessionRow U)
  insert_row true row rows = insert row.token_hash row rows
  insert_row false row rows = rows

  module _ (hash : Text → List ℕ) (faults : Faults) where
    -- `token` is what `rand.Read` gives, in hex.
    unfoldable pub create_session : U → List ℕ → ℕ → Text → Manager U → Outcome Text × Manager U
    create_session vault dek now token m =
        if m.has_store && faults.insert_fails then (refused backend, m) else (
          done token,
          record m {
            sessions =
                insert token
                  (record {
                    vault_id = vault;
                    dek = dek;
                    expires_at = now + m.idle;
                    max_until = now + m.max;
                    last_seen = now;
                    idle = m.idle;
                    token_hash = hash token;
                  })
                  m.sessions;
            rows =
                insert_row m.has_store
                  (record {
                    token_hash = hash token;
                    vault_id = vault;
                    created_at = now;
                    last_seen = now;
                    expires_at = now + m.idle;
                    max_until = now + m.max;
                  })
                  m.rows;
            state = fill_state vault dek m.state;
          },
        )

    -- `_ = m.store.DeleteSession(...)`, where there is a store.
    unfoldable pub delete_row : Text → Manager U → Manager U
    delete_row token m =
        if m.has_store && not faults.delete_fails
        then record m { rows = remove (hash token) m.rows }
        else m

    unfoldable pub forget : Text → Manager U → Manager U
    forget token m = delete_row token (record m { sessions = remove token m.sessions })

    unfoldable pub session_of_row : Text → Manager U → SessionRow U → Session U
    session_of_row token m row = record {
      vault_id = row.vault_id;
      dek = state_dek m.state;
      expires_at = row.expires_at;
      max_until = row.max_until;
      last_seen = row.last_seen;
      idle = m.idle;
      token_hash = hash token;
    }

    abbrev pub renew_row : Text → Session U → Option (SessionRow U) → Manager U → Manager U
    renew_row token s none m = m
    renew_row token s (some row) m =
        let row' = record row { last_seen = s.last_seen; expires_at = s.expires_at } in
        record m { rows = insert (hash token) row' m.rows }

    -- `_ = m.store.TouchSession(...)`, where there is a store.
    unfoldable pub touch_row : Text → Session U → Manager U → Manager U
    touch_row token s m =
        if m.has_store && not faults.touch_fails
        then renew_row token s (lookup (hash token) m.rows) m
        else m

    -- The last part of Touch, for a session that is in the map.
    unfoldable pub refresh : Text → ℕ → Session U → Manager U → Outcome (Session U) × Manager U
    refresh token now s m =
        let s' = record s { last_seen = now; expires_at = now + s.idle } in
        if is_stale now s.max_until s.last_seen s.idle
        then (refused vault_locked, forget token m)
        else (done s', touch_row token s' (record m { sessions = insert token s' m.sessions }))

    -- The first part of Touch, for a token that is not in the map: its row, if it is fresh, is put
    -- there.
    unfoldable pub touch_cold :
        Text → ℕ → Option (SessionRow U) → Manager U → Outcome (Session U) × Manager U
    touch_cold token now none m = (refused unauthorized, m)
    touch_cold token now (some row) m =
        let s = session_of_row token m row in
        if is_stale now row.max_until row.last_seen m.idle
        then (refused vault_locked, delete_row token m)
        else refresh token now s (record m { sessions = insert token s m.sessions })

    -- `GetSessionByHash`; without a store, or after an error, there is no row.
    unfoldable pub find_row_of_token : Text → Manager U → Option (SessionRow U)
    find_row_of_token token m =
        if m.has_store && not faults.get_fails then lookup (hash token) m.rows else none

    abbrev pub touch_found :
        Text → ℕ → Option (Session U) → Manager U → Outcome (Session U) × Manager U
    touch_found token now (some s) m = refresh token now s m
    touch_found token now none m = touch_cold token now (find_row_of_token token m) m

    unfoldable pub touch : Text → ℕ → Manager U → Outcome (Session U) × Manager U
    touch token now m =
        if is_empty token
        then (refused unauthorized, m)
        else touch_found token now (lookup token m.sessions) m

    unfoldable pub invalidate : Text → Manager U → Manager U
    invalidate token m = forget token m

  abbrev pub invalidate_all : Manager U → Manager U
  invalidate_all m = record m { sessions = [] }

-- `IsValidAuthMode`
unfoldable pub is_valid_auth_mode : Text → Bool
is_valid_auth_mode s =
    text_beq s (codes "session")
    || text_beq s (codes "auto_unlock")
    || text_beq s (codes "api_keys")

-- The calls that a server makes on the manager, each with the statements of it that fail.
pub data Call (U : Type 0) : Type 0 where
  creating : Faults → U → List ℕ → ℕ → Text → Call U
  touching : Faults → Text → ℕ → Call U
  invalidating : Faults → Text → Call U
  invalidating_all : Call U
  setting_state : Option (VaultState U) → Call U

module _ {U : Type 0} (hash : Text → List ℕ) where
  abbrev pub after : Call U → Manager U → Manager U
  after (creating f vault dek now token) m = (create_session hash f vault dek now token m).1
  after (touching f token now) m = (touch hash f token now m).1
  after (invalidating f token) m = invalidate hash f token m
  after invalidating_all m = invalidate_all m
  after (setting_state state) m = set_vault_state state m

  unfoldable pub after_all : List (Call U) → Manager U → Manager U
  after_all [] m = m
  after_all (c ∷ cs) m = after_all cs (after c m)
