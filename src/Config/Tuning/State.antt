-- ===== src/Config/Tuning/State.antt =====
-- internal/config/tuning_state.go, and PATCH /v1/tuning of internal/api/tuning_handlers.go.
use ghost_vault.Prelude.{
  ◌≡◌, ◌⊎◌, refl, inl, inr, Bool, true, false, Option, none, some, List, [], ◌∷◌, if◌then◌else◌,
  Assoc, Bool-cases,
}
use ghost_vault.Text.{Text}
use ghost_vault.Extern.{Float64}
use ghost_vault.Config.Tuning.{RuntimeTuning, default_runtime_tuning}
use ghost_vault.Config.Tuning.Layers.{
  Formats, FileRead, and_then, validate, merge_tuning_full, merge_tuning_override_json,
  validate-merge_tuning_full, and_then-eq_some, some-inj,
}

pub record TuningState (F : Type 0) : Type 0 where
  pub def : RuntimeTuning F
  pub file_layer : RuntimeTuning F
  pub db_json : Text
  pub current : RuntimeTuning F

-- What the loader of overrides gives; without one, the overrides are blank.
pub data Loaded : Type 0 where
  load_failed : Loaded
  loaded : Text → Loaded

-- What PATCH answers, and the overrides in the store with the state of the server after it.
pub data Reply : Type 0 where
  empty_patch not_read bad_patch invalid not_stored not_reloaded updated : Reply

pub record TuningServer (F : Type 0) : Type 0 where
  pub stored : Text
  pub state : TuningState F

module _ {F R : Type 0} ⦃o : Float64 F⦄ (fmt : Formats F R) where
  abbrev pub installed : TuningState F → Text → RuntimeTuning F × RuntimeTuning F → TuningState F
  installed s overrides (eff, layer) = record s {
    current = eff;
    file_layer = layer;
    db_json = overrides;
  }

  -- `Reload`: `none` is an error, which leaves the state as it was.
  unfoldable pub reload : TuningState F → FileRead → Loaded → Option (TuningState F)
  reload s file load_failed = none
  reload s file (loaded overrides) =
      and_then (merge_tuning_full fmt s.def file overrides) (λ r. some (installed s overrides r))

  abbrev pub blank_state : TuningState F
  blank_state = record {
    def = default_runtime_tuning;
    file_layer = default_runtime_tuning;
    db_json = [];
    current = default_runtime_tuning;
  }

  unfoldable pub new_tuning_state : FileRead → Loaded → Option (TuningState F)
  new_tuning_state file overrides = reload blank_state file overrides

  abbrev pub kept_or : TuningState F → Option (TuningState F) → TuningState F
  kept_or s none = s
  kept_or s (some s') = s'

  -- The reloads of a server's life: of each, the file and the overrides that it found.
  unfoldable pub reload_all : TuningState F → List (FileRead × Loaded) → TuningState F
  reload_all s [] = s
  reload_all s ((file, overrides) ∷ later) = reload_all (kept_or s (reload s file overrides)) later

  abbrev finish : TuningServer F → Option (TuningState F) → Reply × TuningServer F
  finish s none = (not_reloaded, s)
  finish s (some st) = (updated, record s { state = st })

  -- PATCH, from the merged overrides on; `file` and `file'` are what its two reads of the file give.
  unfoldable pub store_patch :
      FileRead → FileRead → Bool → Bool → TuningServer F → Text → Reply × TuningServer F
  store_patch file file' set_fails load_fails s merged =
      elim (merge_tuning_full fmt default_runtime_tuning file merged) [
        | none ↦ (invalid, s)
        | some r ↦
            if set_fails
            then (not_stored, s)
            else finish (record s { stored = merged })
                (reload s.state file' (if load_fails then load_failed else loaded merged))
      ]

  unfoldable pub patch_tuning :
      Bool
      → FileRead
      → FileRead
      → Bool
      → Bool
      → Assoc Text R
      → TuningServer F
      → Reply × TuningServer F
  patch_tuning get_fails file file' set_fails load_fails [] s = (empty_patch, s)
  patch_tuning get_fails file file' set_fails load_fails (e ∷ patch) s =
      if get_fails
      then (not_read, s)
      else (elim (merge_tuning_override_json fmt s.stored (e ∷ patch)) [
        | none ↦ (bad_patch, s)
        | some merged ↦ store_patch file file' set_fails load_fails s merged
      ])

  -- The settings in force are valid, and the defaults are the program's.
  pub record IsSound (s : TuningState F) : Type 0 where
    pub current_valid : validate s.current ≡ true
    pub def_kept : s.def ≡ default_runtime_tuning

  reload-IsSound :
      (s s' : TuningState F) (file : FileRead) (overrides : Loaded)
      → s.def ≡ default_runtime_tuning
      → reload s file overrides ≡ some s'
      → IsSound s'
  unfolding reload
  reload-IsSound s s' file load_failed kept h = absurd (cc h)
  reload-IsSound s s' file (loaded overrides) kept h =
      let (r, e, h') = and_then-eq_some (merge_tuning_full fmt s.def file overrides) _ h in
      rw (← some-inj h') (record {
        current_valid = validate-merge_tuning_full fmt s.def file overrides e;
        def_kept = kept;
      })

  kept_or-IsSound :
      (s : TuningState F) (file : FileRead) (overrides : Loaded)
      → IsSound s
      → IsSound (kept_or s (reload s file overrides))
  kept_or-IsSound s file overrides sound = go (reload s file overrides) refl
    where
      go : (q : Option (TuningState F)) → reload s file overrides ≡ q → IsSound (kept_or s q)
      go none e = sound
      go (some s') e = reload-IsSound s s' file overrides sound.def_kept e

  reload_all-IsSound :
      (reloads : List (FileRead × Loaded)) (s : TuningState F)
      → IsSound s
      → IsSound (reload_all s reloads)
  unfolding reload_all
  reload_all-IsSound [] s sound = sound
  reload_all-IsSound ((file, overrides) ∷ later) s sound =
      reload_all-IsSound later (kept_or s (reload s file overrides))
        (kept_or-IsSound s file overrides sound)

  -- A server that started always has valid settings in force, whatever file and overrides its later
  -- reloads find, and whichever of them fail.
  pub started-IsSound :
      (file : FileRead) (overrides : Loaded) (reloads : List (FileRead × Loaded))
      {s : TuningState F}
      → new_tuning_state file overrides ≡ some s
      → IsSound (reload_all s reloads)
  unfolding new_tuning_state
  started-IsSound file overrides reloads {s} h =
      reload_all-IsSound reloads s (reload-IsSound blank_state s file overrides refl h)

  -- The overrides in the store are in force: they merge with the file to the current settings.
  abbrev pub InForce : FileRead → TuningServer F → Type 0
  InForce file s =
      (r : RuntimeTuning F × RuntimeTuning F) × (merge_tuning_full fmt default_runtime_tuning file
          s.stored
        ≡ some r)
      × (s.state.current ≡ r.0)

  abbrev pub Patched : FileRead → TuningServer F → Reply × TuningServer F → Type 0
  Patched file s (reply, s') = ((reply ≡ updated) × InForce file s') ⊎ (s' ≡ s)

  store_patch-Patched :
      (file : FileRead) (set_fails : Bool) (s : TuningServer F) (merged : Text)
      → IsSound s.state
      → Patched file s (store_patch file file set_fails false s merged)
  unfolding store_patch reload
  store_patch-Patched file set_fails s merged sound =
      go (merge_tuning_full fmt default_runtime_tuning file merged) refl
    where
      outcome : Option (RuntimeTuning F × RuntimeTuning F) → Reply × TuningServer F
      outcome none = (invalid, s)
      outcome (some r) =
          if set_fails
          then (not_stored, s)
          else finish (record s { stored = merged }) (reload s.state file (loaded merged))

      go :
          (q : Option (RuntimeTuning F × RuntimeTuning F))
          → merge_tuning_full fmt default_runtime_tuning file merged ≡ q
          → Patched file s (outcome q)
      go none e = inr refl
      go (some r) e = elim (Bool-cases set_fails) [
        | inl fails ↦ rw fails (inr refl)
        | inr stores ↦ rw (stores, sound.def_kept, e) (inl (refl, (r, e, refl)))
      ]

  -- With sound settings in force and a file that stays as it is, a PATCH whose reload can read the
  -- store either answers that it updated, and then the overrides in the store are in force, or
  -- leaves the store and the settings as they were.
  pub patch_tuning-Patched :
      (get_fails set_fails : Bool) (file : FileRead) (patch : Assoc Text R) (s : TuningServer F)
      → IsSound s.state
      → Patched file s (patch_tuning get_fails file file set_fails false patch s)
  unfolding patch_tuning
  patch_tuning-Patched get_fails set_fails file [] s sound = inr refl
  patch_tuning-Patched get_fails set_fails file (e ∷ patch) s sound = elim (Bool-cases get_fails) [
    | inl fails ↦ rw fails (inr refl)
    | inr reads ↦ rw reads (go (merge_tuning_override_json fmt s.stored (e ∷ patch)))
  ]
    where
      outcome : Option Text → Reply × TuningServer F
      outcome none = (bad_patch, s)
      outcome (some merged) = store_patch file file set_fails false s merged

      go : (q : Option Text) → Patched file s (outcome q)
      go none = inr refl
      go (some merged) = store_patch-Patched file set_fails s merged sound
