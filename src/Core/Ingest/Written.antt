-- ===== src/Core/Ingest/Written.antt =====
-- internal/core/ingest_work.go: the row that persistStructuredItem leaves when it succeeds.
use mathlib.Core.Path.{subst}
use ghost_vault.Prelude.{
  ℕ, ◌≡◌, refl, sym, ap, ◌∙◌, Bool, true, Option, none, some, List, ◌∷◌, inl, inr,
}
use ghost_vault.Text.{Text, text_eq, Casing}
use ghost_vault.Extern.{Uuids, Json}
use ghost_vault.Outcome.{Result, ok, err, ok-inj, marshal_failed}
use ghost_vault.Outcome.Action.{Action, ◌>>=◌, bind-eq_ok}
use ghost_vault.Config.Tuning.{RuntimeTuning}
use ghost_vault.Store.Tables.{Db, ChunkInsert, ChunkRow, insert_chunk}
use ghost_vault.Core.ChunkBody.{format_chunk_v2_json}
use ghost_vault.Core.Ingest.Persist.{
  Services, Payload, Summary, plaintext_of, persist_structured_item,
}
use ghost_vault.Core.Ingest.Rows.{Holds, store_text-Gives}
use ghost_vault.Core.Ingest.{IngestInput, IngestWorkItem, needs_v2_format}
use ghost_vault.Store.Effects.{live, insert_chunk-atomic}

-- One step of a chain that succeeds, for what is to hold of the state behind it.
>>=-step :
    {S A B : Type 0} (Q : S → Type 0) (m : Action S A) (f : A → Action S B) (s : S) {b : B}
    → ((m >>= f) s).0 ≡ ok b
    → ((a : A) → (m s).0 ≡ ok a → (f a (m s).1).0 ≡ ok b → Q (f a (m s).1).1)
    → Q ((m >>= f) s).1
>>=-step Q m f s h next =
    let (a, e, same) = bind-eq_ok m f s h in
    subst Q (sym (ap (λ p. p.1) same)) (next a e (sym (ap (λ p. p.0) same) ∙ h))

module _ {U E V F : Type 0} ⦃i : Uuids U⦄ ⦃u : Casing⦄ (sv : Services U E) (encrypted : Bool)
    (j : Json V) (tn : RuntimeTuning F) (input : IngestInput U V) (w : IngestWorkItem U V)
    (hash : List ℕ) where
  -- The row of an item: its text, kept the way `Holds` says, and its columns.
  pub record IsItemRow (id : U) (c : ChunkInsert U E V) : Type 0 where
    pub text : Text
    pub version : ℕ
    pub said : plaintext_of {E = E} sv encrypted j tn input w ≡ ok (text, version)
    pub pay : Payload
    pub held : Holds {E = E} sv j encrypted input.session text pay
    pub same_id : c.id ≡ id
    pub same_vault : c.vault_id ≡ input.vault_id
    pub same_ciphertext : c.ciphertext ≡ pay.ciphertext
    pub same_nonce : c.nonce ≡ pay.nonce
    pub same_body : c.body_text ≡ pay.body_text
    pub same_kind : c.item_kind ≡ w.kind
    pub same_metadata : c.item_metadata ≡ w.metadata
    pub same_source : c.source_document_id ≡ w.source_document_id

  -- The row is on top of memory_chunks.
  abbrev pub OnTop : U → Db U E V → Type 0
  OnTop id db =
      (c : ChunkInsert U E V) × (rows : List (ChunkRow U E V)) × (db.chunks ≡ live c ∷ rows)
      × IsItemRow id c

  inserted-OnTop :
      (id : U) (c : ChunkInsert U E V) (db : Db U E V)
      → (insert_chunk sv.fails c db).0 ≡ ok tt
      → IsItemRow id c
      → OnTop id (insert_chunk sv.fails c db).1
  inserted-OnTop id c db done row = elim (insert_chunk-atomic sv.fails c db) [
    | inl (_, (e, _, _)) ↦ (c, db.chunks, e, row)
    | inr (x, failed, _) ↦ absurd (cc (done, failed))
  ]

  pub persist-OnTop :
      (db : Db U E V) {id : U} {sm : Summary}
      → (persist_structured_item sv encrypted j tn input w hash db).0 ≡ ok (id, sm)
      → OnTop id (persist_structured_item sv encrypted j tn input w hash db).1
  unfolding persist_structured_item
  persist-OnTop db {id} h = >>=-step (OnTop id) _ _ _ h λ plain said h₁.
      >>=-step (OnTop id) _ _ _ h₁ λ t₁ e₁ h₂. >>=-step (OnTop id) _ _ _ h₂ λ vector e₂ h₃.
        >>=-step (OnTop id) _ _ _ h₃ λ id' e₃ h₄. >>=-step (OnTop id) _ _ _ h₄ λ p stored h₅.
          >>=-step (OnTop id) _ _ _ h₅ λ t₂ done h₆. inserted-OnTop id _ _ done (record {
            text = plain.0;
            version = plain.1;
            said = said;
            pay = p;
            held = (store_text-Gives sv j encrypted input.session plain.0).gives _ p stored;
            same_id = ap (λ q. q.0) (ok-inj h₆);
            same_vault = refl;
            same_ciphertext = refl;
            same_nonce = refl;
            same_body = refl;
            same_kind = refl;
            same_metadata = refl;
            same_source = refl;
          })

  pub format-plaintext :
      {t : Text} {v : ℕ}
      → needs_v2_format w ≡ true
      → w.source_document_id ≡ none
      → plaintext_of {E = E} sv encrypted j tn input w ≡ ok (t, v)
      → format_chunk_v2_json j w.abstract w.body w.kind w.metadata ≡ some t
  unfolding plaintext_of
  format-plaintext {t} {v} v2 own h =
      go (format_chunk_v2_json j w.abstract w.body w.kind w.metadata) (rw (v2, own) at h)
    where
      go :
          (o : Option Text)
          → ◌≡◌ {A = Result (Text × ℕ)}
              (elim o [ none ↦ err marshal_failed | some s ↦ ok (s, 2) ])
              (ok (t, v))
          → o ≡ some t
      go none h' = absurd (cc h')
      go (some s) h' = ap some (ap (λ q. q.0) (ok-inj h'))
