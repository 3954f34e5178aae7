-- ===== src/Tests/Tuning.antt =====
-- Settings at concrete inputs: a raw value is a number.
use ghost_vault.Prelude.{ℕ, true, false, ◌≡◌, refl, none, some, [], ◌∷◌, Assoc, if◌then◌else◌}
use ghost_vault.Prelude.Int.{pos}
use ghost_vault.Text.{Text, codes, text_beq, is_space, trim_space}
use ghost_vault.Config.Tuning.{default_runtime_tuning}
use ghost_vault.Config.Tuning.Layers.{
  Formats, missing, unreadable, no_partial, validate, merge_tuning_full, file_layer_for_sources,
  merge_tuning_with_partial,
}
use ghost_vault.Config.Tuning.State.{
  TuningState, TuningServer, loaded, IsSound, Patched, reload, reload_all, new_tuning_state,
  patch_tuning, started-IsSound, patch_tuning-Patched,
}
use ghost_vault.Core.Settings.{IsUsed, validate-IsUsed}
use ghost_vault.Tests.Data.{nat_float}

abbrev formats : Formats ℕ ℕ
formats = record {
  float = λ v. some (some v);
  int = λ v. some (some (pos v));
  text = λ v. none;
  bool = λ v. none;
  object = λ s. some (if text_beq s (codes "{}") then [] else (codes "chunk_overlap", 100) ∷ []);
  print_object = λ m. some (codes "{x}");
  yaml = λ s. some no_partial;
}

abbrev started : TuningState ℕ
started = record {
  def = default_runtime_tuning;
  file_layer = default_runtime_tuning;
  db_json = [];
  current = default_runtime_tuning;
}

new-started : new_tuning_state formats missing (loaded []) ≡ some started
unfolding new_tuning_state reload merge_tuning_full file_layer_for_sources merge_tuning_with_partial
    trim_space validate is_space
new-started = refl

started-IsSound_example :
    IsSound formats
      (reload_all formats started ((unreadable, loaded []) ∷ (missing, loaded (codes "{x}")) ∷ []))
started-IsSound_example =
    started-IsSound formats missing (loaded [])
      ((unreadable, loaded []) ∷ (missing, loaded (codes "{x}")) ∷ []) new-started

default_valid : validate {F = ℕ} default_runtime_tuning ≡ true
unfolding validate trim_space is_space
default_valid = refl

at_start-IsSound : IsSound formats started
at_start-IsSound = record { current_valid = default_valid; def_kept = refl }

abbrev server : TuningServer ℕ
server = record { stored = codes "{}"; state = started }

abbrev patch : Assoc Text ℕ
patch = (codes "chunk_overlap", 100) ∷ []

patch_tuning-Patched_example :
    Patched formats missing server
      (patch_tuning formats false missing missing false false patch server)
patch_tuning-Patched_example =
    patch_tuning-Patched formats false false missing patch server at_start-IsSound

validate-IsUsed_example : IsUsed {F = ℕ} default_runtime_tuning
validate-IsUsed_example = validate-IsUsed default_runtime_tuning default_valid
