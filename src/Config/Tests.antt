-- ===== src/Config/Tests.antt =====
-- A request that only changes the priority of a key, on a database that knows the model.
use red_eye_engine_gateway.Common.{
  arith, true, false, str_eq, eq_iff, eq_refl, if◌then◌else◌, sym, ap, ◌∙◌, Bool-cases, inl, inr,
  none, some, List, [], ◌∷◌, String, ◌≡◌, refl, pos, Result, ok, err,
}
use red_eye_engine_gateway.Config.Failures.{
  ConfigError, not_found, database, into_response, into_response_hides,
}
use red_eye_engine_gateway.Config.Settings as Settings
use red_eye_engine_gateway.Config.Settings.{ClientConfig, UpdateConfigRequest}
use red_eye_engine_gateway.Router.Keys.{lookup, sort_keys}
use red_eye_engine_gateway.Config.Mesh.{
  RoutingEntry, UpsertRoutingMeshRequest, TextOps, Repo, placeholder, mesh_of, upsert_routing_mesh,
}
use red_eye_engine_gateway.Config.Mesh.Grouping.{IsGrouped, upsert_routing_mesh-IsGrouped}

abbrev plain_text : TextOps
plain_text = record { trim = λ s. s; to_lowercase = λ s. s }

abbrev known : RoutingEntry
known = record {
  model_name = "gpt-4o";
  base_url = "https://api.openai.com";
  schema_format = "openai";
  key_alias = "main";
  api_key = "sk-1";
  priority = pos 5;
  weight = pos 100;
}

abbrev one_model : Repo
one_model = record {
  Db = List RoutingEntry;
  upsert_llm_model = λ db tenant_id model base_url schema_format. ok db;
  get_routing_entries = λ db tenant_id. ok db;
}

abbrev new_priority : UpsertRoutingMeshRequest
new_priority = record {
  model_name = "gpt-4o";
  base_url = "";
  schema_format = "openai";
  key_alias = "main";
  priority = some (pos 1);
  weight = none;
}

-- The published model has lost its URL, and the key has kept its priority.
lost_url :
    lookup "gpt-4o" (mesh_of plain_text one_model new_priority (known ∷ []))
    ≡ some (record {
      base_url = "";
      schema_format = "openai";
      keys =
          record { key_alias = "main"; api_key = "sk-1"; priority = pos 5; weight = pos 100 } ∷ [];
    })
unfolding lookup mesh_of sort_keys
lost_url = refl

published :
    (upsert_routing_mesh plain_text one_model new_priority "t" (known ∷ [])).0
    ≡ ok (mesh_of plain_text one_model new_priority (known ∷ []))
unfolding upsert_routing_mesh
published = refl

upsert_routing_mesh-IsGrouped_example :
    (entries : List RoutingEntry) × (one_model.get_routing_entries (known ∷ []) "t" ≡ ok entries)
    × IsGrouped entries "gpt-4o" "" "openai"
        (placeholder plain_text one_model new_priority)
        (mesh_of plain_text one_model new_priority (known ∷ []))
unfolding upsert_routing_mesh
upsert_routing_mesh-IsGrouped_example =
    upsert_routing_mesh-IsGrouped plain_text one_model new_priority "t" (known ∷ []) published

one_row_tenant :
    (db : ClientConfig) (t : String) (c : ClientConfig)
    → (if str_eq db.tenant_id t then ok db else err (not_found "no row")) ≡ ok c
    → c.tenant_id ≡ t
one_row_tenant db t c h = elim (Bool-cases (str_eq db.tenant_id t)) [
  | inl e ↦
      ap (λ (r : Result ConfigError ClientConfig). elim r [ ok a ↦ a.tenant_id | err _ ↦ t ])
        (sym (rw e at h))
      ∙ (eq_iff db.tenant_id t).0 e
  | inr e ↦
      ap (λ (r : Result ConfigError ClientConfig). elim r [ ok a ↦ a.tenant_id | err _ ↦ t ])
        (sym (rw e at h))
]

abbrev all_on : ClientConfig
all_on = record {
  tenant_id = "t";
  pii_masking_enabled = true;
  semantic_caching_enabled = true;
  routing_fallback_enabled = true;
  rate_limit_rpm = some (pos 60);
  preferred_model = some "gpt-4o";
}

-- A table with one row, of whatever was saved last.
abbrev one_row : Settings.Repo
one_row = record {
  Db = ClientConfig;
  get_config = λ db t. if str_eq db.tenant_id t then ok db else err (not_found "no row");
  upsert_config = λ db c. (ok c, c);
  get_tenant = one_row_tenant;
  get_upsert = λ db c saved h.
      (ap (λ r. elim r [ ok a ↦ a | err _ ↦ saved ]) (sym h), rw (eq_refl c.tenant_id) refl);
}

abbrev no_masking : UpdateConfigRequest
no_masking = record {
  pii_masking_enabled = some false;
  semantic_caching_enabled = none;
  routing_fallback_enabled = none;
  rate_limit_rpm = some (pos 5);
  preferred_model = some none;
}

abbrev short_text : Settings.TextOps
short_text = record { trim = λ s. s; len = λ s. 6 }

into_response_hides_example :
    into_response (database "users table is locked") ≡ into_response (database "timeout")
unfolding into_response
into_response_hides_example =
    into_response_hides (database "timeout") "users table is locked" (omega arith)
