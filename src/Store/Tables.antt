-- ===== src/Store/Tables.antt =====
-- internal/store/store.go: the tables that ingest writes, and its statements on them. Each statement
-- may fail: `fails n` says whether the n-th statement of a run does.
use ghost_vault.Prelude.{
  ℕ, zero, suc, ◌+◌, Bool, true, false, not, ◌&&◌, ◌||◌, Option, none, some, List, [], ◌∷◌,
  if◌then◌else◌, take, Assoc,
}
use mathlib.Core.List.{reverse}
use ghost_vault.Text.{Text, text_beq}
use ghost_vault.Extern.{Uuids}
use ghost_vault.Outcome.{ok, err, store_failed, not_found}
use ghost_vault.Outcome.Action.{Action, ◌>>=◌, ◌>>◌, pure, fail, gets, modify, ignore}

pub record ChunkInsert (U E V : Type 0) : Type 0 where
  pub id : U
  pub vault_id : U
  pub user_id : Text
  pub ciphertext : List ℕ
  pub nonce : List ℕ
  pub key_id : Option Text
  pub body_text : Option Text
  pub content_sha256 : List ℕ
  pub embedding_model_id : Text
  pub chunk_schema_version : ℕ
  pub plain_for_tsv : Text
  pub embedding : E
  pub ingest_session_key : Option Text
  pub item_kind : Text
  pub item_metadata : Option (Assoc Text V)
  pub source_document_id : Option U

-- A row of memory_chunks; `deleted` is `deleted_at IS NOT NULL`.
pub record ChunkRow (U E V : Type 0) : Type 0 where
  pub chunk : ChunkInsert U E V
  pub deleted : Bool

pub record SourceDocumentInsert (U : Type 0) : Type 0 where
  pub id : U
  pub vault_id : U
  pub user_id : Text
  pub title : Option Text
  pub content_sha256 : List ℕ
  pub body_text : Option Text
  pub ciphertext : List ℕ
  pub nonce : List ℕ
  pub key_id : Option Text

pub record Message (U : Type 0) : Type 0 where
  pub vault_id : U
  pub user_id : Text
  pub session_key : Text
  pub role : Text
  pub content : Text

-- `messages` has the newest first. `made` counts the calls of `uuid.New`.
pub record Db (U E V : Type 0) : Type 0 where
  pub calls : ℕ
  pub made : ℕ
  pub chunks : List (ChunkRow U E V)
  pub embeddings : List (U × E)
  pub history : List (U × U)
  pub sources : List (SourceDocumentInsert U)
  pub messages : List (Message U)

module _ {U E V : Type 0} (fails : ℕ → Bool) where
  -- One statement.
  unfoldable pub exec : {A : Type 0} → Action (Db U E V) A → Action (Db U E V) A
  exec m db =
      let db' = record db { calls = db.calls + 1 } in
      if fails db.calls then (err store_failed, db') else m db'

  -- `Begin`, then the statements and `Commit`; after an error the tables are rolled back.
  unfoldable pub rolled_back : Db U E V → Db U E V → Db U E V
  rolled_back before after = record before { calls = after.calls; made = after.made }

  unfoldable pub transaction : Action (Db U E V) (Unit {0}) → Action (Db U E V) (Unit {0})
  unfolding exec rolled_back
  transaction m db =
      let body = exec (pure tt) >> m >> exec (pure tt) in
      let (r, db') = body db in elim r [ ok _ ↦ (ok tt, db') | err e ↦ (err e, rolled_back db db') ]

  unfoldable pub insert_chunk : ChunkInsert U E V → Action (Db U E V) (Unit {0})
  unfolding transaction
  insert_chunk c = transaction (
      exec (modify (λ db. record db { chunks = record { chunk = c; deleted = false } ∷ db.chunks }))
      >> exec (modify (λ db. record db { embeddings = (c.id, c.embedding) ∷ db.embeddings }))
      >> exec (modify (λ db. record db { history = (c.vault_id, c.id) ∷ db.history })))

  unfoldable pub insert_source_document : SourceDocumentInsert U → Action (Db U E V) (Unit {0})
  unfolding exec
  insert_source_document d = exec (modify (λ db. record db { sources = d ∷ db.sources }))

module _ {U : Type 0} ⦃i : Uuids U⦄ where
  -- `vault_id = $1 AND user_id = $2`
  abbrev pub owned : U → Text → U → Text → Bool
  owned vault user v u = i.id_eq.beq v vault && text_beq u user

  unfoldable pub find_source : U → Text → List ℕ → List (SourceDocumentInsert U) → Option U
  find_source vault user hash [] = none
  find_source vault user hash (d ∷ ds) =
      if owned vault user d.vault_id d.user_id && text_beq d.content_sha256 hash
      then some d.id
      else find_source vault user hash ds

  abbrev pub in_conversation : U → Text → Text → Message U → Bool
  in_conversation vault user key m =
      owned vault user m.vault_id m.user_id && text_beq m.session_key key

  -- The messages of one conversation, newest first.
  unfoldable pub conversation : U → Text → Text → List (Message U) → List (Message U)
  conversation vault user key [] = []
  conversation vault user key (m ∷ ms) =
      let rest = conversation vault user key ms in
      if in_conversation vault user key m then m ∷ rest else rest

  -- Without the messages of the conversation behind its newest `keep`.
  unfoldable pub pruned : U → Text → Text → ℕ → List (Message U) → List (Message U)
  pruned vault user key keep [] = []
  pruned vault user key keep (m ∷ ms) = elim (in_conversation vault user key m) [
    | false ↦ m ∷ pruned vault user key keep ms
    | true ↦ elim keep [
      | zero ↦ pruned vault user key 0 ms
      | suc n ↦ m ∷ pruned vault user key n ms
    ]
  ]

module _ {U E : Type 0} ⦃i : Uuids U⦄ where
  unfoldable pub without_embedding : U → List (U × E) → List (U × E)
  without_embedding id [] = []
  without_embedding id ((k, v) ∷ es) =
      let rest = without_embedding id es in if i.id_eq.beq k id then rest else (k, v) ∷ rest

module _ {U E V : Type 0} ⦃i : Uuids U⦄ where
  abbrev pub is_live_hash : U → Text → List ℕ → ChunkRow U E V → Bool
  is_live_hash vault user hash r =
      owned vault user r.chunk.vault_id r.chunk.user_id
      && text_beq r.chunk.content_sha256 hash
      && not r.deleted

  unfoldable pub has_live_hash : U → Text → List ℕ → List (ChunkRow U E V) → Bool
  has_live_hash vault user hash [] = false
  has_live_hash vault user hash (r ∷ rs) =
      is_live_hash vault user hash r || has_live_hash vault user hash rs

  abbrev pub is_live_chunk : U → U → ChunkRow U E V → Bool
  is_live_chunk vault id r =
      i.id_eq.beq r.chunk.id id && i.id_eq.beq r.chunk.vault_id vault && not r.deleted

  unfoldable pub mark_deleted : U → U → List (ChunkRow U E V) → List (ChunkRow U E V)
  mark_deleted vault id [] = []
  mark_deleted vault id (r ∷ rs) =
      (if is_live_chunk vault id r then record r { deleted = true } else r)
      ∷ mark_deleted vault id rs

  unfoldable pub has_live_chunk : U → U → List (ChunkRow U E V) → Bool
  has_live_chunk vault id [] = false
  has_live_chunk vault id (r ∷ rs) = is_live_chunk vault id r || has_live_chunk vault id rs

  module _ (fails : ℕ → Bool) where
    unfoldable pub chunk_exists_hash : U → Text → List ℕ → Action (Db U E V) Bool
    unfolding exec has_live_hash
    chunk_exists_hash vault user hash =
        exec fails (gets (λ db. has_live_hash vault user hash db.chunks))

    unfoldable pub get_source_document_id_by_hash : U → Text → List ℕ → Action (Db U E V) (Option U)
    unfolding exec find_source
    get_source_document_id_by_hash vault user hash =
        exec fails (gets (λ db. find_source vault user hash db.sources))

    unfoldable pub append_session_message : Message U → Action (Db U E V) (Unit {0})
    unfolding exec
    append_session_message m = exec fails (modify (λ db. record db { messages = m ∷ db.messages }))

    -- Oldest first.
    unfoldable pub recent_session_messages :
        U → Text → Text → ℕ → Action (Db U E V) (List (Message U))
    unfolding exec conversation
    recent_session_messages vault user key limit =
        exec fails (gets (λ db. reverse (take limit (conversation vault user key db.messages))))

    unfoldable pub prune_session_messages : U → Text → Text → ℕ → Action (Db U E V) (Unit {0})
    unfolding exec pruned
    prune_session_messages vault user key keep =
        exec fails (modify (λ db. record db { messages = pruned vault user key keep db.messages }))

    -- The rows that the first statement changes; an error of the second one is dropped.
    unfoldable pub soft_delete_chunk : U → U → Action (Db U E V) (Unit {0})
    unfolding exec mark_deleted has_live_chunk without_embedding
    soft_delete_chunk vault id =
        exec fails (λ db. (
          ok (has_live_chunk vault id db.chunks),
          record db { chunks = mark_deleted vault id db.chunks },
        ))
        >>= λ affected.
            if affected
            then ignore (
                exec fails
                  (modify (λ db. record db { embeddings = without_embedding id db.embeddings })))
            else fail not_found
