-- ===== src/Api/Memories/Isolation.antt =====
-- internal/api/handlers.go: a request touches the memories of the vault that it was let in to only.
use ghost_vault.Prelude.{
  ℕ, ◌≡◌, ◌≢◌, inl, inr, refl, sym, ap, ◌∙◌, Bool, ◌||◌, Option, none, some, List, [], ◌∷◌, All-map,
  Bool-cases, arith,
}
use ghost_vault.Text.{Text, Casing, is_empty}
use ghost_vault.Extern.{Uuids, Json, Float64}
use ghost_vault.Outcome.{Result, ok, err}
use ghost_vault.Outcome.Action.{Action, ignore}
use ghost_vault.Auth.{Session}
use ghost_vault.Auth.Manager.{Outcome, done, refused, Faults}
use ghost_vault.Store.Tables.{
  Db, ChunkInsert, ChunkRow, Message, exec, append_session_message, has_live_chunk,
}
use ghost_vault.Store.Effects.{IsQuiet, Adds, Appended, IsLive, Adds->>=, IsQuiet->>=, pure-IsQuiet}
use ghost_vault.Store.Deletion.{soft_delete_exact}
use ghost_vault.Core.Retrieve.Run.{Engine}
use ghost_vault.Core.Ingest.Persist.{Services}
use ghost_vault.Core.Ingest.Run.{IngestDebugInfo}
use ghost_vault.Core.Ingest.Stored.{ingest-Appended}
use ghost_vault.Api.{Request, Server, require_vault_auth}
use ghost_vault.Api.Memories.{
  IngestMessage, IngestReq, append_all, input_of, ingest_for, ingest_answer, ingest_matching,
  ingest_body, ingest_auth, serve_ingest, delete_answer, delete_matching, delete_auth, delete_chunk,
}

module _ {U E V : Type 0} where
  mono-Appended :
      {P Q : ChunkInsert U E V → Type 0} {before after : List (ChunkRow U E V)}
      → ((c : ChunkInsert U E V) → P c → Q c)
      → Appended P before after
      → Appended Q before after
  mono-Appended {P} {Q} f (new, e, all) =
      (new, e, All-map (IsLive P) (IsLive Q) (λ r (p, l). (f r.chunk p, l)) new all)

  same-Appended :
      (P : ChunkInsert U E V → Type 0) {before after : List (ChunkRow U E V)}
      → after ≡ before
      → Appended P before after
  same-Appended P e = ([], e, tt)

  ignore-IsQuiet : {A : Type 0} {m : Action (Db U E V) A} → IsQuiet m → IsQuiet (ignore m)
  ignore-IsQuiet q = record { same = λ db. q.same db }

  append-IsQuiet :
      ⦃i : Uuids U⦄ (fails : ℕ → Bool) (m : Message U)
      → IsQuiet (append_session_message {E = E} {V = V} fails m)
  unfolding append_session_message exec
  append-IsQuiet fails m = record { same = λ db. ground arith }

module _ {U E V F : Type 0} ⦃i : Uuids U⦄ ⦃u : Casing⦄ ⦃o : Float64 F⦄ (parse : Text → Option U)
    (sv : Services U E) (e : Engine F) (j : Json V) (debug_on : Bool) where
  append_all-IsQuiet :
      (vault : U) (user key : Text) (ms : List IngestMessage)
      → IsQuiet (append_all parse sv e j debug_on vault user key ms)
  unfolding append_all
  append_all-IsQuiet vault user key [] = pure-IsQuiet
  append_all-IsQuiet vault user key (m ∷ ms) =
      IsQuiet->>= (ignore-IsQuiet (append-IsQuiet sv.fails _))
        λ _. append_all-IsQuiet vault user key ms

  ingest_for-Adds :
      (vault : U) (sess : Session U) (q : IngestReq V)
      → Adds (λ c. c.vault_id ≡ vault) (ingest_for parse sv e j debug_on vault sess q)
  unfolding ingest_for
  ingest_for-Adds vault sess q =
      Adds->>=
        (record {
          run = λ db. same-Appended _ ((append_all-IsQuiet vault q.user_id _ q.messages).same db);
        })
        λ _. record {
          run = λ db.
              mono-Appended (λ c (h, r). r.same_vault)
                (ingest-Appended sv e j (input_of parse sv e j debug_on vault sess q) _ db);
        }

  module _ (db : Db U E V) where
    ingest_answer-Appended :
        (vault : U) (p : Result (List U × Option IngestDebugInfo) × Db U E V)
        → Appended (λ c. c.vault_id ≡ vault) db.chunks p.1.chunks
        → Appended
            (λ c. c.vault_id ≡ vault)
            db.chunks
            (ingest_answer parse sv e j debug_on p).1.chunks
    ingest_answer-Appended vault (ok r, db') h = h
    ingest_answer-Appended vault (err x, db') h = h

    matching-Appended :
        (vault : U) (id : Option U) (sess : Session U) (q : IngestReq V)
        → Appended
            (λ c. c.vault_id ≡ vault)
            db.chunks
            (ingest_matching parse sv e j debug_on vault id sess q db).1.chunks
    matching-Appended vault none sess q = same-Appended _ refl
    matching-Appended vault (some id) sess q = elim (Bool-cases (i.id_eq.beq id vault)) [
      | inl e₁ ↦
          let same = (i.id_eq.beq_iff id vault).0 e₁ in
          rw e₁ (
            ingest_answer-Appended vault _
              (mono-Appended (λ c h. h ∙ same) ((ingest_for-Adds id sess q).run db)))
      | inr e₁ ↦ rw e₁ (same-Appended _ refl)
    ]

    body-Appended :
        (sess : Session U) (vault : U) (body : Option (IngestReq V))
        → Appended
            (λ c. c.vault_id ≡ vault)
            db.chunks
            (ingest_body parse sv e j debug_on sess vault body db).1.chunks
    body-Appended sess vault none = same-Appended _ refl
    body-Appended sess vault (some q) =
        elim (Bool-cases (is_empty q.vault_id || is_empty q.user_id)) [
          | inl e₁ ↦ rw e₁ (same-Appended _ refl)
          | inr e₁ ↦ rw e₁ (matching-Appended vault (parse q.vault_id) sess q)
        ]

    module _ (hash : Text → List ℕ) (faults : Faults) (r : Request) (now : ℕ) (s : Server U) where
      -- The request is let in to the vault of the chunk.
      abbrev pub IsLetIn : ChunkInsert U E V → Type 0
      IsLetIn c =
          (sess : Session U) × ((require_vault_auth hash faults r now s).0
            ≡ done (sess, c.vault_id))

      auth-Appended :
          (auth : Outcome (Session U × U)) (body : Option (IngestReq V))
          → (require_vault_auth hash faults r now s).0 ≡ auth
          → Appended IsLetIn db.chunks (ingest_auth parse sv e j debug_on auth body db).1.chunks
      auth-Appended (refused x) body h = same-Appended _ refl
      auth-Appended (done (sess, vault)) body h =
          mono-Appended (λ c e₁. (sess, h ∙ ap (λ v. done (sess, v)) (sym e₁)))
            (body-Appended sess vault body)

      -- An ingest request, whatever its headers and its body, and whichever calls fail, leaves the rows
      -- of memory_chunks with new rows on top at most, each of a vault that the request was let in to.
      pub serve_ingest-Appended :
          (body : Option (IngestReq V))
          → Appended IsLetIn db.chunks
              (serve_ingest parse sv e j debug_on hash faults r now body s db).2.chunks
      unfolding serve_ingest
      serve_ingest-Appended body = auth-Appended _ body refl

module _ {U E V : Type 0} ⦃i : Uuids U⦄ ⦃u : Casing⦄ (parse : Text → Option U)
    (hash : Text → List ℕ) (faults : Faults) (fails : ℕ → Bool) (db : Db U E V)
    (vault' id' : U) where
  -- The chunk is live after the call exactly when it was live before.
  abbrev Spared : Db U E V → Type 0
  Spared db' = has_live_chunk vault' id' db'.chunks ≡ has_live_chunk vault' id' db.chunks

  delete_answer-Spared :
      (p : Result (Unit {0}) × Db U E V)
      → Spared p.1
      → Spared (delete_answer parse hash faults fails p).1
  delete_answer-Spared (ok t, db') h = h
  delete_answer-Spared (err x, db') h = h

  delete_matching-Spared :
      (vault : U) (id : Option U)
      → vault' ≢ vault
      → Spared (delete_matching parse hash faults fails vault id db).1
  delete_matching-Spared vault none h = refl
  delete_matching-Spared vault (some id) h =
      delete_answer-Spared _ (soft_delete_exact vault id fails db vault' id' (inr h)).1

  delete_auth-Spared :
      (auth : Outcome (Session U × U)) (id : Text)
      → ((sess : Session U) → auth ≢ done (sess, vault'))
      → Spared (delete_auth parse hash faults fails auth id db).1
  delete_auth-Spared (refused x) id h = refl
  delete_auth-Spared (done (sess, vault)) id h =
      delete_matching-Spared vault (parse id) (λ e. h sess (ap (λ v. done (sess, v)) (sym e)))

  -- A deletion request, whatever its headers and its path, and whichever statements fail, leaves
  -- every chunk of a vault that the request is not let in to as live or as deleted as it was.
  pub delete_chunk-other :
      (r : Request) (now : ℕ) (id : Text) (s : Server U)
      → ((sess : Session U) → (require_vault_auth hash faults r now s).0 ≢ done (sess, vault'))
      → has_live_chunk vault' id' (delete_chunk parse hash faults fails r now id s db).2.chunks
        ≡ has_live_chunk vault' id' db.chunks
  unfolding delete_chunk
  delete_chunk-other r now id s h = delete_auth-Spared _ id h
