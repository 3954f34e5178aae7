-- ===== src/Config/Tuning/Layers.antt =====
-- internal/config/tuning.go: the layers of defaults, file and overrides. A map of Go is a list of its
-- entries in the order in which a range loop meets them. Error texts are not modelled: `none` is
-- an error.
use mathlib.Core.Option
use ghost_vault.Prelude.{
  ◌≡◌, refl, Bool, true, false, not, ◌&&◌, ◌||◌, Option, none, some, List, [], ◌∷◌, if◌then◌else◌,
  Assoc, insert,
}
use ghost_vault.Prelude.Int.{ℤ, pos, ltb_ℤ}
use ghost_vault.Text.{Text, codes, is_empty, text_beq, text_eq, trim_space}
use ghost_vault.Extern.{Float64}
use ghost_vault.Config.Tuning.{RuntimeTuning}

-- `none` is a nil pointer: the field is not set.
pub record TuningPartial (F : Type 0) : Type 0 where
  pub semantic_threshold : Option F
  pub fusion_lexical_weight : Option F
  pub retrieve_default_max_chunks : Option ℤ
  pub retrieve_k_dense_min : Option ℤ
  pub retrieve_k_dense_multiplier : Option ℤ
  pub session_prefer_score_boost : Option F
  pub chunk_rune_size : Option ℤ
  pub chunk_overlap : Option ℤ
  pub recent_session_messages_infer : Option ℤ
  pub prune_session_messages_keep : Option ℤ
  pub infer_llm_model : Option Text
  pub embedding_model : Option Text
  pub max_body_bytes : Option ℤ
  pub retrieve_debug : Option Bool
  pub http_access_log : Option Bool

-- `json.Unmarshal` of a value at a pointer to each type, where `some none` is JSON's null; of an
-- object, where null is the empty map; `json.Marshal` of an object; and `yaml.Unmarshal`.
pub record Formats (F R : Type 0) : Type 0 where
  pub float : R → Option (Option F)
  pub int : R → Option (Option ℤ)
  pub text : R → Option (Option Text)
  pub bool : R → Option (Option Bool)
  pub object : Text → Option (Assoc Text R)
  pub print_object : Assoc Text R → Option Text
  pub yaml : Text → Option (TuningPartial F)

-- What reading the tuning file gives; a blank path counts as a missing file.
pub data FileRead : Type 0 where
  missing unreadable : FileRead
  contents : Text → FileRead

abbrev pub and_then : {A B : Type 0} → Option A → (A → Option B) → Option B
and_then none f = none
and_then (some a) f = f a

abbrev pub or_base : {A : Type 0} → Option A → A → A
or_base none a = a
or_base (some b) a = b

pub some-inj : {A : Type 0} {a b : A} → some a ≡ some b → a ≡ b
some-inj h = cc h

pub and_then-eq_some :
    {A B : Type 0} (x : Option A) (f : A → Option B) {b : B}
    → and_then x f ≡ some b
    → (a : A) × (x ≡ some a) × (f a ≡ some b)
and_then-eq_some none f h = absurd (cc h)
and_then-eq_some (some a) f h = (a, refl, h)

-- `PatchableTuningKeys`
abbrev pub patchable_tuning_keys : List Text
patchable_tuning_keys =
    codes "semantic_threshold"
    ∷ codes "fusion_lexical_weight"
    ∷ codes "retrieve_default_max_chunks"
    ∷ codes "retrieve_k_dense_min"
    ∷ codes "retrieve_k_dense_multiplier"
    ∷ codes "session_prefer_score_boost"
    ∷ codes "chunk_rune_size"
    ∷ codes "chunk_overlap"
    ∷ codes "recent_session_messages_for_infer"
    ∷ codes "prune_session_messages_keep"
    ∷ codes "infer_llm_model"
    ∷ codes "max_body_bytes"
    ∷ codes "retrieve_debug"
    ∷ codes "http_access_log"
    ∷ []

abbrev pub has_key : Text → List Text → Bool
has_key k [] = false
has_key k (j ∷ js) = text_beq j k || has_key k js

unfoldable pub is_patchable : Text → Bool
is_patchable k = has_key k patchable_tuning_keys

module _ {F : Type 0} where
  abbrev pub no_partial : TuningPartial F
  no_partial = record {
    semantic_threshold = none;
    fusion_lexical_weight = none;
    retrieve_default_max_chunks = none;
    retrieve_k_dense_min = none;
    retrieve_k_dense_multiplier = none;
    session_prefer_score_boost = none;
    chunk_rune_size = none;
    chunk_overlap = none;
    recent_session_messages_infer = none;
    prune_session_messages_keep = none;
    infer_llm_model = none;
    embedding_model = none;
    max_body_bytes = none;
    retrieve_debug = none;
    http_access_log = none;
  }

  unfoldable pub apply_partial : RuntimeTuning F → TuningPartial F → RuntimeTuning F
  apply_partial base p = record {
    semantic_threshold = or_base p.semantic_threshold base.semantic_threshold;
    fusion_lexical_weight = or_base p.fusion_lexical_weight base.fusion_lexical_weight;
    retrieve_default_max_chunks =
        or_base p.retrieve_default_max_chunks base.retrieve_default_max_chunks;
    retrieve_k_dense_min = or_base p.retrieve_k_dense_min base.retrieve_k_dense_min;
    retrieve_k_dense_multiplier =
        or_base p.retrieve_k_dense_multiplier base.retrieve_k_dense_multiplier;
    session_prefer_score_boost =
        or_base p.session_prefer_score_boost base.session_prefer_score_boost;
    chunk_rune_size = or_base p.chunk_rune_size base.chunk_rune_size;
    chunk_overlap = or_base p.chunk_overlap base.chunk_overlap;
    recent_session_messages_infer =
        or_base p.recent_session_messages_infer base.recent_session_messages_infer;
    prune_session_messages_keep =
        or_base p.prune_session_messages_keep base.prune_session_messages_keep;
    infer_llm_model = or_base p.infer_llm_model base.infer_llm_model;
    embedding_model = or_base p.embedding_model base.embedding_model;
    max_body_bytes = or_base p.max_body_bytes base.max_body_bytes;
    retrieve_debug = or_base p.retrieve_debug base.retrieve_debug;
    http_access_log = or_base p.http_access_log base.http_access_log;
  }

-- `n < 1`
abbrev pub below_one : ℤ → Bool
below_one n = ltb_ℤ n (pos 1)

module _ {F : Type 0} ⦃o : Float64 F⦄ where
  -- `x < 0 || x > 1`
  abbrev pub outside_unit : F → Bool
  outside_unit x = o.lt x (o.lit 0 0) || o.lt (o.lit 1 0) x

  -- `Validate` finds no error.
  unfoldable pub validate : RuntimeTuning F → Bool
  validate t =
      not (outside_unit t.semantic_threshold)
      && not (outside_unit t.fusion_lexical_weight)
      && not (below_one t.retrieve_default_max_chunks)
      && not (below_one t.retrieve_k_dense_min)
      && not (below_one t.retrieve_k_dense_multiplier)
      && not (o.lt t.session_prefer_score_boost (o.lit 1 0))
      && not (below_one t.chunk_rune_size)
      && not (ltb_ℤ t.chunk_overlap (pos 0) || not (ltb_ℤ t.chunk_overlap t.chunk_rune_size))
      && not (below_one t.recent_session_messages_infer)
      && not (below_one t.prune_session_messages_keep)
      && not (is_empty (trim_space t.infer_llm_model))
      && not (is_empty (trim_space t.embedding_model))
      && not (below_one t.max_body_bytes)

  -- `return t, t.Validate()`
  unfoldable pub checked : RuntimeTuning F → Option (RuntimeTuning F)
  checked t = if validate t then some t else none

  module _ {R : Type 0} (fmt : Formats F R) where
    -- The switch of MergeFromJSONMap.
    unfoldable pub set_field : Text → R → TuningPartial F → Option (TuningPartial F)
    set_field k v p =
        if text_beq k (codes "semantic_threshold")
        then Option.map (λ x. record p { semantic_threshold = x }) (fmt.float v)
        else if text_beq k (codes "fusion_lexical_weight")
        then Option.map (λ x. record p { fusion_lexical_weight = x }) (fmt.float v)
        else if text_beq k (codes "retrieve_default_max_chunks")
        then Option.map (λ x. record p { retrieve_default_max_chunks = x }) (fmt.int v)
        else if text_beq k (codes "retrieve_k_dense_min")
        then Option.map (λ x. record p { retrieve_k_dense_min = x }) (fmt.int v)
        else if text_beq k (codes "retrieve_k_dense_multiplier")
        then Option.map (λ x. record p { retrieve_k_dense_multiplier = x }) (fmt.int v)
        else if text_beq k (codes "session_prefer_score_boost")
        then Option.map (λ x. record p { session_prefer_score_boost = x }) (fmt.float v)
        else if text_beq k (codes "chunk_rune_size")
        then Option.map (λ x. record p { chunk_rune_size = x }) (fmt.int v)
        else if text_beq k (codes "chunk_overlap")
        then Option.map (λ x. record p { chunk_overlap = x }) (fmt.int v)
        else if text_beq k (codes "recent_session_messages_for_infer")
        then Option.map (λ x. record p { recent_session_messages_infer = x }) (fmt.int v)
        else if text_beq k (codes "prune_session_messages_keep")
        then Option.map (λ x. record p { prune_session_messages_keep = x }) (fmt.int v)
        else if text_beq k (codes "infer_llm_model")
        then Option.map (λ x. record p { infer_llm_model = x }) (fmt.text v)
        else if text_beq k (codes "max_body_bytes")
        then Option.map (λ x. record p { max_body_bytes = x }) (fmt.int v)
        else if text_beq k (codes "retrieve_debug")
        then Option.map (λ x. record p { retrieve_debug = x }) (fmt.bool v)
        else if text_beq k (codes "http_access_log")
        then Option.map (λ x. record p { http_access_log = x }) (fmt.bool v)
        else some p

    unfoldable pub set_fields : Assoc Text R → TuningPartial F → Option (TuningPartial F)
    set_fields [] p = some p
    set_fields ((k, v) ∷ m) p =
        let rest = set_fields m in if is_patchable k then and_then (set_field k v p) rest else none

    unfoldable pub merge_from_json_map : RuntimeTuning F → Assoc Text R → Option (RuntimeTuning F)
    merge_from_json_map base m =
        and_then (set_fields m no_partial) (λ p. checked (apply_partial base p))

    unfoldable pub merge_tuning_with_partial : RuntimeTuning F → Text → Option (RuntimeTuning F)
    merge_tuning_with_partial base raw =
        if is_empty (trim_space raw)
        then some base
        else and_then (fmt.object raw) (merge_from_json_map base)

    unfoldable pub merge_yaml_bytes : RuntimeTuning F → Text → Option (RuntimeTuning F)
    merge_yaml_bytes base b =
        if is_empty (trim_space b)
        then some base
        else and_then (fmt.yaml b) (λ p. checked (apply_partial base p))

    unfoldable pub file_layer_for_sources : RuntimeTuning F → FileRead → Option (RuntimeTuning F)
    file_layer_for_sources def missing = some def
    file_layer_for_sources def unreadable = none
    file_layer_for_sources def (contents b) = merge_yaml_bytes def b

    -- The effective settings and the file's layer.
    unfoldable pub merge_tuning_full :
        RuntimeTuning F → FileRead → Text → Option (RuntimeTuning F × RuntimeTuning F)
    merge_tuning_full def file overrides = and_then (file_layer_for_sources def file) λ layer.
        and_then (merge_tuning_with_partial layer overrides)
          λ eff. if validate eff then some (eff, layer) else none

    abbrev pub put_all : Assoc Text R → Assoc Text R → Option (Assoc Text R)
    put_all [] m = some m
    put_all ((k, v) ∷ patch) m =
        let rest = put_all patch in if is_patchable k then rest (insert k v m) else none

    abbrev pub or_braces : Text → Text
    or_braces s = let t = trim_space s in if is_empty t then codes "{}" else t

    unfoldable pub merge_tuning_override_json : Text → Assoc Text R → Option Text
    merge_tuning_override_json existing patch =
        and_then (fmt.object (or_braces existing)) λ m. and_then (put_all patch m) fmt.print_object

    -- Settings that were merged without an error are valid.
    pub validate-merge_tuning_full :
        (def : RuntimeTuning F) (file : FileRead) (overrides : Text)
        {r : RuntimeTuning F × RuntimeTuning F}
        → merge_tuning_full def file overrides ≡ some r
        → validate r.0 ≡ true
    unfolding merge_tuning_full
    validate-merge_tuning_full def file overrides {r} h =
        let (layer, _, h₁) = and_then-eq_some (file_layer_for_sources def file) _ h in
        let (eff, _, h₂) = and_then-eq_some (merge_tuning_with_partial layer overrides) _ h₁ in
        passed eff layer (validate eff) refl h₂
      where
        passed :
            (eff layer : RuntimeTuning F) (b : Bool)
            → validate eff ≡ b
            → (if b then some (eff, layer) else none) ≡ some r
            → validate r.0 ≡ true
        passed eff layer true e h' = rw (← some-inj h') e
        passed eff layer false e h' = absurd (cc h')
