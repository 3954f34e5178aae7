-- ===== src/Store/Pruning.antt =====
-- internal/store/store.go: what PruneSessionMessages and SoftDeleteChunk leave.
use ghost_vault.Prelude.{
  ℕ, zero, suc, ◌≤◌, ◌≡◌, ◌≢◌, ◌⊎◌, refl, ap, Bool, true, false, List, [], ◌∷◌, take, arith,
  Bool-cases, inl, inr,
}
use ghost_vault.Text.{Text, text_beq_iff}
use ghost_vault.Extern.{Uuids, eq_of_uuids}
use ghost_vault.Store.Tables.{
  Db, Message, exec, in_conversation, conversation, pruned, prune_session_messages,
  recent_session_messages,
}

take-take_le : {A : Type 0} (m n : ℕ) (xs : List A) → m ≤ n → take m (take n xs) ≡ take m xs
take-take_le zero n xs h = refl
take-take_le (suc m) zero xs h = absurd (omega arith)
take-take_le (suc m) (suc n) [] h = refl
take-take_le (suc m) (suc n) (x ∷ xs) h = ap (◌∷◌ x) (take-take_le m n xs (omega arith))

module _ {U : Type 0} ⦃i : Uuids U⦄ (vault : U) (user key : Text) where
  conversation-pruned :
      (keep : ℕ) (ms : List (Message U))
      → conversation vault user key (pruned vault user key keep ms)
        ≡ take keep (conversation vault user key ms)
  unfolding conversation pruned
  conversation-pruned zero [] = refl
  conversation-pruned (suc n) [] = refl
  conversation-pruned zero (m ∷ ms) = ground (arith, conversation-pruned zero ms)
  conversation-pruned (suc n) (m ∷ ms) =
      ground (arith, conversation-pruned n ms, conversation-pruned (suc n) ms)

  module _ (vault' : U) (user' key' : Text) where
    abbrev pub IsElsewhere : Type 0
    IsElsewhere = (vault ≢ vault') ⊎ ((user ≢ user') ⊎ (key ≢ key'))

    apart :
        IsElsewhere
        → (m : Message U) → in_conversation vault user key m ≡ true
        → in_conversation vault' user' key' m ≡ false
    apart other m h = ground (
      arith,
      other,
      h,
      i.id_eq.beq_iff m.vault_id vault,
      i.id_eq.beq_iff m.vault_id vault',
      text_beq_iff m.user_id user,
      text_beq_iff m.user_id user',
      text_beq_iff m.session_key key,
      text_beq_iff m.session_key key',
    )

    conversation-pruned_other :
        IsElsewhere
        → (keep : ℕ) (ms : List (Message U))
        → conversation vault' user' key' (pruned vault user key keep ms)
          ≡ conversation vault' user' key' ms
    unfolding conversation pruned
    conversation-pruned_other other keep [] = refl
    conversation-pruned_other other zero (m ∷ ms) =
        ground (arith, apart other m, conversation-pruned_other other zero ms)
    conversation-pruned_other other (suc n) (m ∷ ms) = ground (
      arith,
      apart other m,
      conversation-pruned_other other n ms,
      conversation-pruned_other other (suc n) ms,
    )

  abbrev no_fault : ℕ → Bool
  no_fault n = false

  module _ {E V : Type 0} (fails : ℕ → Bool) (keep limit : ℕ) (db : Db U E V) where
    -- Pruning a conversation to its newest `keep` messages, failed or not, does not change what
    -- RecentSessionMessages returns of it under a limit of at most `keep`.
    pub recent-prune :
        limit ≤ keep
        → (recent_session_messages no_fault vault user key limit
            (prune_session_messages fails vault user key keep db).1).0
          ≡ (recent_session_messages no_fault vault user key limit db).0
    unfolding recent_session_messages prune_session_messages exec
    recent-prune le = elim (Bool-cases (fails db.calls)) [
      | inl e ↦ rw e refl
      | inr e ↦
          rw
            (
              e,
              conversation-pruned keep db.messages,
              take-take_le limit keep (conversation vault user key db.messages) le,
            )
            refl
    ]

    -- Pruning a conversation does not change what RecentSessionMessages returns of any other one.
    recent-prune_other :
        (vault' : U) (user' key' : Text)
        → IsElsewhere vault' user' key'
        → (recent_session_messages no_fault vault' user' key' limit
            (prune_session_messages fails vault user key keep db).1).0
          ≡ (recent_session_messages no_fault vault' user' key' limit db).0
    unfolding recent_session_messages prune_session_messages exec
    recent-prune_other vault' user' key' other = elim (Bool-cases (fails db.calls)) [
      | inl e ↦ rw e refl
      | inr e ↦ rw (e, conversation-pruned_other vault' user' key' other keep db.messages) refl
    ]
