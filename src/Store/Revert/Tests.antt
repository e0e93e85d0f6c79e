-- ===== src/Store/Revert/Tests.antt =====
-- A revert of internal/store/store.go that restores one file and deletes another.
use Prim.Native.String.{String}
use aap_config_server.Base.{
  ◌≡◌, ◌≢◌, ◌↔◌, sym, refl, false, arith, eq_iff, true, not, ◌&&◌, [], ◌∷◌,
}
use aap_config_server.Base.Eq.{text_has_eq}
use aap_config_server.Base.Map.{Map, lookup, has}
use aap_config_server.Store.Listing.{contains}
use aap_config_server.Store.Revert.{
  all_agree, RevertRequest, revert_plan, revert_plan_files_by_path,
}
use aap_config_server.Store.Revert.Laws.{revert_plan_restores}

abbrev request : RevertRequest
request = record {
  org = "acme";
  project = "ai";
  service = "chat";
  target_version = "c1";
  message = "";
}

abbrev target : Map String String
target = ("config.yaml", "level: info") ∷ []

abbrev current : Map String String
current = ("config.yaml", "level: debug") ∷ ("env_vars.yaml", "A: 1") ∷ []

-- the same files, listed in another order
abbrev restored : Map String String
restored = ("env_vars.yaml", "A: 1") ∷ ("config.yaml", "level: debug") ∷ []

same_files : (revert_plan (λ s. s) request restored current).noop ≡ true
unfolding revert_plan lookup all_agree
same_files = refl

more_files : (revert_plan (λ s. s) request target current).noop ≡ false
unfolding revert_plan lookup all_agree
more_files = refl

names_differ : ◌≢◌ {A = String} "config.yaml" "env_vars.yaml"
names_differ e = ground (arith, eq_iff "config.yaml" "env_vars.yaml")

revert_plan_restores_example :
    ((r : String)
      → (lookup r (revert_plan_files_by_path (revert_plan (λ s. s) request restored current))
          ≡ lookup r restored)
        × (contains r (revert_plan (λ s. s) request restored current).deleted_files
            ≡ (has r current && not (has r restored))))
    × (((revert_plan (λ s. s) request restored current).noop ≡ true)
        ↔ ((r : String) → lookup r current ≡ lookup r restored))
revert_plan_restores_example =
    revert_plan_restores (λ s. s) request restored current
      (((λ e. names_differ (sym e)), tt), (tt, tt)) ((names_differ, tt), (tt, tt))
