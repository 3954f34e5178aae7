-- ===== src/Tests/Sessions.antt =====
-- Sessions at concrete inputs: tokens are their own hashes.
use ghost_vault.Prelude.{
  ℕ, ◌+◌, ◌≤◌, ◌≡◌, ◌≢◌, refl, true, false, none, some, List, [], ◌∷◌, lookup, insert, arith,
}
use ghost_vault.Text.{Text, codes, text_eq, text_beq}
use ghost_vault.Auth.{Session}
use ghost_vault.Auth.Manager.{
  unauthorized, done, refused, SessionRow, Manager, Faults, new_manager, create_session, fill_state,
  touch_row, refresh, touch_cold, find_row_of_token, session_of_row, touch, invalidate, Call,
  creating, touching, invalidating_all, setting_state, after_all,
}
use ghost_vault.Auth.Limits.{IsLimited}
use ghost_vault.Auth.Lifetime.{touch_within_max, touch-invalidate}
use ghost_vault.Auth.Leases.{Use, opens, uses, closes, restarts, answers, use_lease, lease_answers}
use ghost_vault.Auth.Leases.Answers.{answers-lease_answers}

abbrev hash : Text → List ℕ
hash t = t

no_collision : (token t : Text) → hash t ≡ hash token → t ≡ token
no_collision token t e = e

abbrev no_faults : Faults
no_faults = record {
  insert_fails = false;
  get_fails = false;
  touch_fails = false;
  delete_fails = false;
}

abbrev delete_fault : Faults
delete_fault = record no_faults { delete_fails = true }

abbrev empty : Manager ℕ
empty = new_manager 40 100 true none

abbrev opened : Session ℕ
opened = record {
  vault_id = 7;
  dek = 9 ∷ [];
  expires_at = 50;
  max_until = 110;
  last_seen = 10;
  idle = 40;
  token_hash = codes "t";
}

abbrev opened_row : SessionRow ℕ
opened_row = record {
  token_hash = codes "t";
  vault_id = 7;
  created_at = 10;
  last_seen = 10;
  expires_at = 50;
  max_until = 110;
}

abbrev one : Manager ℕ
one = record empty { sessions = (codes "t", opened) ∷ []; rows = (codes "t", opened_row) ∷ [] }

-- A session of another token, a restart, and the vault's key.
abbrev calls : List (Call ℕ)
calls =
    touching no_faults (codes "t") 30
    ∷ creating no_faults 7 [] 35 (codes "u")
    ∷ invalidating_all
    ∷ setting_state (some (record { id = 7; dek = 9 ∷ [] }))
    ∷ []

create-one : (create_session hash no_faults 7 (9 ∷ []) 10 (codes "t") empty).1 ≡ one
unfolding create_session insert fill_state
create-one = refl

abbrev touched_again : Session ℕ
touched_again = record opened { last_seen = 60; expires_at = 100 }

touch-calls :
    (touch hash no_faults
      (codes "t")
      60
      (after_all hash calls (create_session hash no_faults 7 (9 ∷ []) 10 (codes "t") empty).1)).0
    ≡ done touched_again
unfolding create_session insert touch lookup text_beq refresh touch_row after_all touch_cold
    find_row_of_token session_of_row fill_state
touch-calls = refl

u-is_t : codes "u" ≢ codes "t"
u-is_t e = ground (arith, e)

absent : lookup (codes "t") empty.sessions ≡ none
unfolding lookup
absent = refl

no_row : lookup (codes "t") empty.rows ≡ none
unfolding lookup
no_row = refl

touch_within_max_example : 60 ≤ 10 + 100
touch_within_max_example =
    touch_within_max hash (codes "t") (no_collision (codes "t")) no_faults no_faults calls 7
      (9 ∷ []) 10 60 empty (tt, (u-is_t, (tt, (tt, tt)))) absent no_row touch-calls

touch-invalidate_example :
    (touch hash no_faults
      (codes "t")
      20
      (after_all hash calls (invalidate hash no_faults (codes "t") one))).0
    ≡ refused unauthorized
touch-invalidate_example =
    touch-invalidate hash (codes "t") (no_collision (codes "t")) no_faults no_faults calls 20 one
      refl refl (tt, (u-is_t, (tt, (tt, tt))))

found : lookup (codes "t") one.sessions ≡ some opened
unfolding lookup text_beq
found = refl

found_row : lookup (codes "t") one.rows ≡ some opened_row
unfolding lookup text_beq
found_row = refl

abbrev touched_at_20 : Session ℕ
touched_at_20 = record opened { last_seen = 20; expires_at = 60 }

one-IsLimited : IsLimited hash (codes "t") (λ n. n ≤ 110) one
unfolding lookup text_beq
one-IsLimited = record { in_map = omega arith; in_table = omega arith }

touch-one : (touch hash no_faults (codes "t") 20 one).0 ≡ done touched_at_20
unfolding touch lookup text_beq refresh
touch-one = refl

-- A token is used, the server restarts, and the token is used again, closed, and used in vain.
abbrev use_of_t : List (Use ℕ)
use_of_t =
    opens 7 (9 ∷ []) 10 (codes "t")
    ∷ uses (codes "t") 20
    ∷ restarts none
    ∷ uses (codes "t") 50
    ∷ closes (codes "t")
    ∷ uses (codes "t") 51
    ∷ []

answers-lease_answers_example :
    answers hash use_of_t (new_manager 40 100 true none) ≡ lease_answers 40 100 use_of_t (λ t. none)
answers-lease_answers_example = answers-lease_answers hash (λ t t' e. e) 40 100 none use_of_t

-- These are the answers.
use_of_t_answers :
    lease_answers 40 100 use_of_t (λ t. none) ≡ done 7 ∷ done 7 ∷ refused unauthorized ∷ []
unfolding lease_answers use_lease text_beq
use_of_t_answers = refl
