-- ===== src/Core/Ingest/Again.antt =====
-- internal/core/ingest_work.go: ingesting the same items once more.
use mathlib.Core.Path.{subst}
use ghost_vault.Prelude.{
  ℕ, ◌+◌, ◌≡◌, refl, sym, ap, ◌∙◌, ◌⊎◌, inl, inr, Bool, true, false, List, [], ◌∷◌, ◌++◌, All,
  arith, none, ◌&&◌, ◌||◌, Bool-cases,
}
use ghost_vault.Text.{Text, Casing, text_beq, text_beq_iff}
use ghost_vault.Extern.{Uuids, Json, Float64}
use ghost_vault.Outcome.{ok}
use ghost_vault.Outcome.Action.{Action, ◌>>=◌, pure, bind-eq_ok}
use ghost_vault.Store.Tables.{Db, ChunkRow, exec, chunk_exists_hash, has_live_hash}
use ghost_vault.Store.Effects.{Appended, pure-IsQuiet}
use ghost_vault.Store.Unique.{guarded-live}
use ghost_vault.Core.Retrieve.Run.{Engine}
use ghost_vault.Core.Ingest.{IngestInput, IngestWorkItem, is_blank}
use ghost_vault.Core.Ingest.Persist.{Services, Summary}
use ghost_vault.Core.Ingest.Run.{work_hash, contains, add_item, add_found, ingest_item, ingest_work}
use ghost_vault.Core.Ingest.Stored.{IsStored, add_item-AddsOne, item-Stores, work-Stores}

module _ {U E V : Type 0} ⦃i : Uuids U⦄ (vault : U) (user : Text) (hash : List ℕ) where
  live-append :
      (new rows : List (ChunkRow U E V))
      → has_live_hash vault user hash rows ≡ true
      → has_live_hash vault user hash (new ++ rows) ≡ true
  unfolding has_live_hash
  live-append [] rows h = h
  live-append (r ∷ new) rows h = ground (arith, live-append new rows h)

module _ {U E V F : Type 0} ⦃i : Uuids U⦄ ⦃u : Casing⦄ ⦃o : Float64 F⦄ where
  module _ (sv : Services U E) (e : Engine F) (j : Json V) (input : IngestInput U V) where
    abbrev IsHere : List (ChunkRow U E V) → List ℕ → Type 0
    IsHere rows hash = has_live_hash input.vault_id input.user_id hash rows ≡ true

    -- The item is blank, or a live row of the input's vault and user has its hash.
    abbrev pub IsKnown : List (ChunkRow U E V) → IngestWorkItem U V → Type 0
    IsKnown rows w =
        ((is_blank w.abstract && is_blank w.body) ≡ true) ⊎ IsHere rows (work_hash sv e j input w)

    IsHere-mono :
        (before after : List (ChunkRow U E V)) (hash : List ℕ)
        → Appended (IsStored sv e j input) before after
        → IsHere before hash
        → IsHere after hash
    IsHere-mono before after hash (new, same, _) h =
        rw same (live-append input.vault_id input.user_id hash new before h)

    All-mono :
        (before after : List (ChunkRow U E V)) (seen : List (List ℕ))
        → Appended (IsStored sv e j input) before after
        → All (IsHere before) seen
        → All (IsHere after) seen
    All-mono before after [] a h = tt
    All-mono before after (s ∷ seen) a (h, hs) =
        (IsHere-mono before after s a h, All-mono before after seen a hs)

    IsHere-contains :
        (rows : List (ChunkRow U E V)) (seen : List (List ℕ)) (hash : List ℕ)
        → contains seen hash ≡ true
        → All (IsHere rows) seen
        → IsHere rows hash
    IsHere-contains rows [] hash c h = absurd (cc c)
    IsHere-contains rows (s ∷ seen) hash c (h, hs) = elim (Bool-cases (text_beq s hash)) [
      | inl same ↦ rw (← (text_beq_iff s hash).0 same) h
      | inr other ↦ IsHere-contains rows seen hash (ground (arith, other, c)) hs
    ]

    item-IsHere :
        (w : IngestWorkItem U V) (db : Db U E V) {r : _}
        → (ingest_item sv e j input w db).0 ≡ ok r
        → IsHere (ingest_item sv e j input w db).1.chunks (work_hash sv e j input w)
    unfolding ingest_item
    item-IsHere w db h =
        guarded-live input.vault_id input.user_id (work_hash sv e j input w) sv.fails
          (add_item sv e j input w) (λ c r. (r.same_vault, r.same_user, r.same_hash)) pure-IsQuiet
          (add_item-AddsOne sv e j input w) db h

    -- A chain that only changes the result.
    map-eq_ok :
        {A B : Type 0} (m : Action (Db U E V) A) (g : A → B) (db : Db U E V) {b : B}
        → ((m >>= λ a. pure (g a)) db).0 ≡ ok b
        → (a : A) × ((m db).0 ≡ ok a) × (((m >>= λ a. pure (g a)) db).1 ≡ (m db).1)
    map-eq_ok m g db h = let (a, e, same) = bind-eq_ok m _ db h in (a, e, ap (λ p. p.1) same)

    abbrev skips : List (List ℕ) → IngestWorkItem U V → Bool
    skips seen w =
        is_blank w.abstract && is_blank w.body || contains seen (work_hash sv e j input w)

    work-skip :
        (seen : List (List ℕ)) (w : IngestWorkItem U V) (ws : List (IngestWorkItem U V))
        → skips seen w ≡ true
        → ingest_work sv e j input seen (w ∷ ws) ≡ ingest_work sv e j input seen ws
    unfolding ingest_work
    work-skip seen w ws skip = rw (skip, ingest_work) refl

    work-new :
        (seen : List (List ℕ)) (w : IngestWorkItem U V) (ws : List (IngestWorkItem U V))
        → skips seen w ≡ false
        → ingest_work sv e j input seen (w ∷ ws) ≡ (
            ingest_item sv e j input w >>= λ r.
            ingest_work sv e j input (work_hash sv e j input w ∷ seen) ws >>= λ rs.
            pure (add_found sv e j input r rs))
    unfolding ingest_work
    work-new seen w ws new = rw (new, ingest_work) refl

    skipped-IsKnown :
        (seen : List (List ℕ)) (w : IngestWorkItem U V) (rows : List (ChunkRow U E V))
        → skips seen w ≡ true
        → All (IsHere rows) seen
        → IsKnown rows w
    skipped-IsKnown seen w rows skip here =
        elim (Bool-cases (is_blank w.abstract && is_blank w.body)) [
          | inl blank ↦ inl blank
          | inr text ↦ inr (
              IsHere-contains rows seen (work_hash sv e j input w) (ground (arith, text, skip))
                here)
        ]

    work-IsKnown :
        (work : List (IngestWorkItem U V)) (seen : List (List ℕ)) (db : Db U E V)
        {rs : List (U × Summary)}
        → All (IsHere db.chunks) seen
        → (ingest_work sv e j input seen work db).0 ≡ ok rs
        → All (IsKnown (ingest_work sv e j input seen work db).1.chunks) work
    work-IsKnown [] seen db here = λ h. tt
    work-IsKnown (w ∷ ws) seen db {rs} here = elim (Bool-cases (skips seen w)) [
      | inl skip ↦ subst Leaves (sym (work-skip seen w ws skip)) (λ h.
          let after = (ingest_work sv e j input seen ws db).1.chunks in
          let here' =
            All-mono db.chunks after seen ((work-Stores sv e j input seen ws).adds.run db) here in
          (skipped-IsKnown seen w after skip here', work-IsKnown ws seen db here h))
      | inr new ↦ subst Leaves (sym (work-new seen w ws new)) (λ h.
          let hash = work_hash sv e j input w in
          let db₁ = (ingest_item sv e j input w db).1 in
          let rest = ingest_work sv e j input (hash ∷ seen) ws in
          let (r, stored, same) = bind-eq_ok (ingest_item sv e j input w) _ db h in
          let (rs', went, same') =
            map-eq_ok rest (add_found sv e j input r) db₁ (ap (λ p. p.0) (sym same) ∙ h) in
          let old =
            All-mono db.chunks db₁.chunks seen ((item-Stores sv e j input w).adds.run db) here in
          let own = item-IsHere w db stored in
          subst (λ d. All (IsKnown d.chunks) (w ∷ ws)) (sym (ap (λ p. p.1) same ∙ same'))
            (
              inr (
                  IsHere-mono db₁.chunks (rest db₁).1.chunks hash
                    ((work-Stores sv e j input (hash ∷ seen) ws).adds.run db₁) own),
              work-IsKnown ws (hash ∷ seen) db₁ (own, old) went,
            ))
    ]
      where
        Leaves : Action (Db U E V) (List (U × Summary)) → Type 0
        Leaves m = (m db).0 ≡ ok rs → All (IsKnown (m db).1.chunks) (w ∷ ws)

    module _ (no_fault : (n : ℕ) → sv.fails n ≡ false) where
      item-here_again :
          (w : IngestWorkItem U V) (db : Db U E V)
          → IsHere db.chunks (work_hash sv e j input w)
          → ingest_item sv e j input w db ≡ (ok none, record db { calls = db.calls + 1 })
      unfolding ingest_item chunk_exists_hash exec ◌>>=◌
      item-here_again w db h = rw (no_fault db.calls, h) refl

      work-again :
          (work : List (IngestWorkItem U V)) (seen : List (List ℕ)) (db : Db U E V)
          → All (IsKnown db.chunks) work
          → ((ingest_work sv e j input seen work db).0 ≡ ok [])
            × ((ingest_work sv e j input seen work db).1.chunks ≡ db.chunks)
      unfolding ◌>>=◌
      work-again [] seen db known = unfold ingest_work in (refl, refl)
      work-again (w ∷ ws) seen db (known, others) = elim (Bool-cases (skips seen w)) [
        | inl skip ↦ rw (work-skip seen w ws skip) (work-again ws seen db others)
        | inr new ↦
            let hash = work_hash sv e j input w in
            let db₁ : Db U E V = record db { calls = db.calls + 1 } in
            let (went, same) = work-again ws (hash ∷ seen) db₁ others in
            rw (work-new seen w ws new, item-here_again w db (here_of new known), went) (refl, same)
      ]
        where
          here_of :
              skips seen w ≡ false
              → IsKnown db.chunks w
              → IsHere db.chunks (work_hash sv e j input w)
          here_of new (inl blank) = absurd (ground (arith, new, blank))
          here_of new (inr here) = here

      -- Once the items were ingested without an error, ingesting them again stores nothing, where no
      -- statement fails: it returns no ids, and leaves the rows as they are.
      pub ingest_work_again :
          (work : List (IngestWorkItem U V)) (db : Db U E V) {rs : List (U × Summary)}
          → (ingest_work sv e j input [] work db).0 ≡ ok rs
          → let db' = (ingest_work sv e j input [] work db).1 in
            ((ingest_work sv e j input [] work db').0 ≡ ok [])
            × ((ingest_work sv e j input [] work db').1.chunks ≡ db'.chunks)
      ingest_work_again work db h =
          let db' = (ingest_work sv e j input [] work db).1 in
          work-again work [] db' (work-IsKnown work [] db tt h)
