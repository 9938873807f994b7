-- ===== src/Router/Selection.antt =====
-- Which keys `prep_upstream_request` chooses, and when it has none.
pub mod Order
use mathlib.Core.List.{Perm}
use mathlib.Core.List.Perm
use red_eye_engine_gateway.Common.{
  Bool, true, false, Option, some, List, [], ◌∷◌, String, ℤ, leb_ℤ, ◌≤ℤ◌, ◌≡◌, refl, ap, ◌∙◌, arith,
  Bool-cases, inl, inr, All, ok, err, ok_or, is_empty, OnOk, OnOk-bind, OnOk-of, OnOk-any,
  ok_or-OnOk, tests, if◌then◌else◌,
}
use red_eye_engine_gateway.Errors.{no_active_keys, response_build, model_not_configured}
use red_eye_engine_gateway.Router.Keys.{
  KeyConfig, ModelConfig, RoutingMap, lookup, insert_key, sort_keys, healthy,
}
use red_eye_engine_gateway.Router.Request.{
  Bytes, Codec, get_provider_config, build_provider_request,
}
use red_eye_engine_gateway.Router.Strategy.{RoutingStrategy}
use red_eye_engine_gateway.Router.Upstream.{Prepared, prepare, prep_model, prep_upstream_request}
use red_eye_engine_gateway.Router.Selection.Order.{
  IsSorted, sort_keys-IsSorted, healthy-IsClosed, healthy-IsSorted, healthy-sort_keys,
}

pub record IsSelected (codec : Codec) (routing : RoutingMap) (is_open : String → Bool)
    (body : Bytes) (accept : String) (p : Prepared) : Type 0 where
  pub config : ModelConfig
  pub primary : KeyConfig
  pub requested : codec.extract_model body ≡ some (some p.model)
  pub configured : lookup p.model routing ≡ some config
  pub primary_alias : primary.key_alias ≡ p.primary_key_alias
  pub built :
      build_provider_request codec p.provider_config config.base_url primary p.model body accept
      ≡ ok p.primary_request
  pub sorted : IsSorted (primary ∷ p.fallback_keys)
  pub closed : All (λ k. is_open k.key_alias ≡ false) (primary ∷ p.fallback_keys)
  pub complete : Perm (primary ∷ p.fallback_keys) (healthy is_open config.keys)
  pub in_order : primary ∷ p.fallback_keys ≡ healthy is_open (sort_keys config.keys)

module _ (codec : Codec) (routing : RoutingMap) (is_open : String → Bool) (body : Bytes)
    (accept model : String) (asked : codec.extract_model body ≡ some (some model))
    (config : ModelConfig) (found : lookup model routing ≡ some config) where
  prepare-IsSelected :
      (ks : List KeyConfig)
      → IsSorted ks
      → All (λ k. is_open k.key_alias ≡ false) ks
      → Perm ks (healthy is_open config.keys)
      → ks ≡ healthy is_open (sort_keys config.keys)
      → OnOk
          (IsSelected codec routing is_open body accept)
          (prepare codec config model body accept ks)
  unfolding prepare
  prepare-IsSelected [] _ _ _ _ = tt
  prepare-IsSelected (k ∷ ks) s c p o =
      OnOk-bind (λ _. Unit {0}) (IsSelected codec routing is_open body accept)
        (build_provider_request codec (get_provider_config codec config.schema_format)
          config.base_url k model body accept)
        _ (OnOk-any _)
        (λ request built _. record {
          config = config;
          primary = k;
          requested = asked;
          configured = found;
          primary_alias = refl;
          built = built;
          sorted = s;
          closed = c;
          complete = p;
          in_order = o;
        })

  prep_config-IsSelected : OnOk (IsSelected codec routing is_open body accept) (
      if is_empty config.keys
      then err no_active_keys
      else prepare codec config model body accept (healthy is_open (sort_keys config.keys)))
  prep_config-IsSelected = elim (Bool-cases (is_empty config.keys)) [
    | inl e ↦ rw e tt
    | inr e ↦ rw e (
        prepare-IsSelected (healthy is_open (sort_keys config.keys))
          (healthy-IsSorted is_open (sort_keys config.keys) (sort_keys-IsSorted config.keys))
          (healthy-IsClosed is_open (sort_keys config.keys)) (healthy-sort_keys is_open config.keys)
          refl)
  ]

prep_model-IsSelected :
    (codec : Codec) (routing : RoutingMap) (is_open : String → Bool) (body : Bytes)
    (accept model : String)
    → codec.extract_model body ≡ some (some model)
    → OnOk
        (IsSelected codec routing is_open body accept)
        (prep_model codec routing is_open body accept model)
unfolding prep_model
prep_model-IsSelected codec routing is_open body accept model asked =
    OnOk-bind (λ config. lookup model routing ≡ some config)
      (IsSelected codec routing is_open body accept)
      (ok_or (lookup model routing) model_not_configured) _ (ok_or-OnOk _ _)
      (λ config _ found.
        prep_config-IsSelected codec routing is_open body accept model asked config found)

-- A successful preparation has selected exactly the healthy keys of the requested model, the one
-- of least priority first.
pub prep_upstream_request-IsSelected :
    (codec : Codec) (routing : RoutingMap) (is_open : String → Bool) (body : Bytes)
    (accept : String) (strategy : RoutingStrategy) {p : Prepared}
    → prep_upstream_request codec routing is_open body accept strategy ≡ ok p
    → IsSelected codec routing is_open body accept p
unfolding prep_upstream_request
prep_upstream_request-IsSelected codec routing is_open body accept strategy h =
    let Chosen = IsSelected codec routing is_open body accept in
    OnOk-of Chosen
      (OnOk-bind (λ m. codec.extract_model body ≡ some m) Chosen
        (ok_or (codec.extract_model body) (response_build "Invalid JSON request")) _
        (ok_or-OnOk _ _)
        (λ extracted _ is_json.
          OnOk-bind (λ m. extracted ≡ some m) Chosen
            (ok_or extracted (response_build "Missing 'model' field in JSON request")) _
            (ok_or-OnOk _ _)
            (λ model _ has_model.
              prep_model-IsSelected codec routing is_open body accept model
                (is_json ∙ ap (λ (m : Option String). some m) has_model))))
      h
