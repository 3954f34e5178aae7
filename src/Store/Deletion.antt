-- ===== src/Store/Deletion.antt =====
-- internal/store/store.go: what SoftDeleteChunk does.
use ghost_vault.Prelude.{
  ℕ, ◌≡◌, ◌≢◌, ◌⊎◌, refl, ap, ◌∙◌, Bool, true, false, List, [], ◌∷◌, arith, if◌then◌else◌,
  Bool-cases, inl, inr,
}
use ghost_vault.Text.{Text}
use ghost_vault.Extern.{Uuids, eq_of_uuids}
use ghost_vault.Outcome.{Result, ok, err, not_found, store_failed}
use ghost_vault.Outcome.Action.{◌>>=◌}
use ghost_vault.Store.Tables.{
  Db, ChunkRow, exec, has_live_hash, is_live_chunk, mark_deleted, has_live_chunk, soft_delete_chunk,
}
use ghost_vault.Store.Unique.{IsUnique}

module _ {U E V : Type 0} ⦃i : Uuids U⦄ (vault id : U) where
  live-mark_deleted :
      (rs : List (ChunkRow U E V)) → has_live_chunk vault id (mark_deleted vault id rs) ≡ false
  unfolding has_live_chunk mark_deleted
  live-mark_deleted [] = refl
  live-mark_deleted (r ∷ rs) = ground (arith, live-mark_deleted rs)

  other-mark_deleted :
      (vault' id' : U) (rs : List (ChunkRow U E V))
      → (id' ≢ id) ⊎ (vault' ≢ vault)
      → has_live_chunk vault' id' (mark_deleted vault id rs) ≡ has_live_chunk vault' id' rs
  unfolding has_live_chunk mark_deleted
  other-mark_deleted vault' id' [] other = refl
  other-mark_deleted vault' id' (r ∷ rs) other = ground (
    arith,
    other-mark_deleted vault' id' rs other,
    i.id_eq.beq_iff r.chunk.id id,
    i.id_eq.beq_iff r.chunk.id id',
    i.id_eq.beq_iff r.chunk.vault_id vault,
    i.id_eq.beq_iff r.chunk.vault_id vault',
  )

  none-mark_deleted :
      (rs : List (ChunkRow U E V))
      → has_live_chunk vault id rs ≡ false
      → mark_deleted vault id rs ≡ rs
  unfolding has_live_chunk mark_deleted
  none-mark_deleted [] h = refl
  none-mark_deleted (r ∷ rs) h = ground (arith, h, none-mark_deleted rs)

  hash-mark_deleted :
      (v : U) (u : Text) (hash : List ℕ) (rs : List (ChunkRow U E V))
      → has_live_hash v u hash rs ≡ false
      → has_live_hash v u hash (mark_deleted vault id rs) ≡ false
  unfolding has_live_hash mark_deleted
  hash-mark_deleted v u hash [] h = refl
  hash-mark_deleted v u hash (r ∷ rs) h = ground (arith, h, hash-mark_deleted v u hash rs)

  IsUnique-mark_deleted :
      (rs : List (ChunkRow U E V)) → IsUnique rs → IsUnique (mark_deleted vault id rs)
  unfolding mark_deleted
  IsUnique-mark_deleted [] h = tt
  IsUnique-mark_deleted (r ∷ rs) (first, rest) =
      (go (is_live_chunk vault id r) first, IsUnique-mark_deleted rs rest)
    where
      go :
          (b : Bool)
          → (r.deleted ≡ true)
            ⊎ (has_live_hash r.chunk.vault_id r.chunk.user_id r.chunk.content_sha256 rs ≡ false)
          → let r' : ChunkRow U E V = if b then record r { deleted = true } else r in
            (r'.deleted ≡ true)
            ⊎ (has_live_hash r'.chunk.vault_id r'.chunk.user_id r'.chunk.content_sha256
                  (mark_deleted vault id rs)
                ≡ false)
      go true h = inl refl
      go false (inl h) = inl h
      go false (inr h) =
          inr (hash-mark_deleted r.chunk.vault_id r.chunk.user_id r.chunk.content_sha256 rs h)

  module _ (fails : ℕ → Bool) (db : Db U E V) where
    rows-soft_delete :
        (soft_delete_chunk fails vault id db).1.chunks
        ≡ (if fails db.calls then db.chunks else mark_deleted vault id db.chunks)
    unfolding soft_delete_chunk exec ◌>>=◌
    rows-soft_delete = ground arith

    done-soft_delete :
        fails db.calls ≡ false
        → (soft_delete_chunk fails vault id db).0
          ≡ (if has_live_chunk vault id db.chunks then ok tt else err not_found)
    unfolding soft_delete_chunk exec ◌>>=◌
    done-soft_delete runs = ground (arith, runs)

    failed-soft_delete :
        fails db.calls ≡ true → (soft_delete_chunk fails vault id db).0 ≡ err store_failed
    unfolding soft_delete_chunk exec ◌>>=◌
    failed-soft_delete fault = ground (arith, fault)

    -- What a deletion answers, and what it does to the chunk itself.
    pub data Deleted (r : Result (Unit {0}) × Db U E V) : Type 0 where
      deleted :
          fails db.calls ≡ false
          → has_live_chunk vault id db.chunks ≡ true
          → r.0 ≡ ok tt
          → has_live_chunk vault id r.1.chunks ≡ false
          → Deleted r
      absent :
          fails db.calls ≡ false
          → has_live_chunk vault id db.chunks ≡ false
          → r.0 ≡ err not_found
          → r.1.chunks ≡ db.chunks
          → Deleted r
      faulty : fails db.calls ≡ true → r.0 ≡ err store_failed → r.1.chunks ≡ db.chunks → Deleted r

    -- A deletion whose first statement runs succeeds exactly when there is a live chunk of that id in
    -- the vault, and then leaves none; without one it answers that it was not found, and the rows stay
    -- as they were, as they do where the statement fails, which is answered as a failure of the store.
    -- Every other chunk, by id or by vault, is live after it exactly when it was live before.
    pub soft_delete_exact :
        (vault' id' : U)
        → (id' ≢ id) ⊎ (vault' ≢ vault)
        → let r = soft_delete_chunk fails vault id db in
          Deleted r × (has_live_chunk vault' id' r.1.chunks ≡ has_live_chunk vault' id' db.chunks)
    soft_delete_exact vault' id' other = elim (Bool-cases (fails db.calls)) [
      | inl fault ↦
          let same : (soft_delete_chunk fails vault id db).1.chunks ≡ db.chunks =
            rw (rows-soft_delete, fault) refl in
          (faulty fault (failed-soft_delete fault) same, ap (has_live_chunk vault' id') same)
      | inr runs ↦
          let rows : (soft_delete_chunk fails vault id db).1.chunks
              ≡ mark_deleted vault id db.chunks =
            rw (rows-soft_delete, runs) refl in
          (
            found runs rows (Bool-cases (has_live_chunk vault id db.chunks)),
            ap (has_live_chunk vault' id') rows ∙ other-mark_deleted vault' id' db.chunks other,
          )
    ]
      where
        found :
            fails db.calls ≡ false
            → (soft_delete_chunk fails vault id db).1.chunks ≡ mark_deleted vault id db.chunks
            → (has_live_chunk vault id db.chunks ≡ true)
              ⊎ (has_live_chunk vault id db.chunks ≡ false)
            → Deleted (soft_delete_chunk fails vault id db)
        found runs rows (inl live) =
            deleted runs live (rw (done-soft_delete runs, live) refl)
              (ap (has_live_chunk vault id) rows ∙ live-mark_deleted db.chunks)
        found runs rows (inr gone) =
            absent runs gone (rw (done-soft_delete runs, gone) refl)
              (rows ∙ none-mark_deleted db.chunks gone)

    -- A deletion keeps the rows unique by vault, user and hash.
    soft_delete-IsUnique :
        IsUnique db.chunks → IsUnique (soft_delete_chunk fails vault id db).1.chunks
    soft_delete-IsUnique h = elim (Bool-cases (fails db.calls)) [
      | inl fault ↦ rw (rows-soft_delete, fault) h
      | inr runs ↦ rw (rows-soft_delete, runs) (IsUnique-mark_deleted db.chunks h)
    ]
