-- ===== src/Store/Listing/Laws.antt =====
-- The listings of internal/store/store.go against GetConfig: what can be read is listed.
use Prim.Native.String.{String, ◌++◌}
use text.Mathlib.TextLemmas.{append_assoc}
use mathlib.Core.List.{Mem, mem-cons_self, mem-cons_of_mem}
use mathlib.Core.List.Perm
use aap_config_server.Base.{
  ◌≡◌, ap, ◌∙◌, Option, none, some, List, [], ◌∷◌, Bool-cases, inl, inr, arith,
}
use aap_config_server.Base.Eq.{◌==◌, text_has_eq}
use aap_config_server.Base.Map.{Map, lookup}
use aap_config_server.Base.Sort.{str_less, sort_by-Perm}
use aap_config_server.Base.Text.{cut_prefix, cut_prefix-append}
use aap_config_server.Store.Types.{ServiceData, ServiceKey}
use aap_config_server.Store.Paths.{key_string}
use aap_config_server.Store.Reload.{ConfigStore, get_config}
use aap_config_server.Store.Listing.{
  ServiceInfo, service_info, add_service, services_below, list_services,
}

Mem-add_service :
    (x : ServiceInfo) (o : Option String) (sd : ServiceData) (infos : List ServiceInfo)
    → Mem x infos
    → Mem x (add_service o sd infos)
Mem-add_service x none sd infos h = h
Mem-add_service x (some name) sd infos h = mem-cons_of_mem (service_info name sd) h

Mem-services_below :
    (prefix k name : String) (m : Map String ServiceData) (sd : ServiceData)
    → cut_prefix prefix k ≡ some name
    → lookup k m ≡ some sd
    → Mem (service_info name sd) (services_below prefix m)
unfolding lookup services_below
Mem-services_below prefix k name [] sd c h = absurd (cc h)
Mem-services_below prefix k name ((i, v) ∷ m) sd c h = elim (Bool-cases (i == k)) [
  | inl y ↦
      let same : v ≡ sd = ground (arith, y, h) in
      let cut : cut_prefix prefix i ≡ some name =
        ap (cut_prefix prefix) ((text_has_eq.agree_iff i k).0 y) ∙ c in
      rw cut (rw same mem-cons_self)
  | inr n ↦
      Mem-add_service (service_info name sd) (cut_prefix prefix i) v (services_below prefix m)
        (Mem-services_below prefix k name m sd c (ground (arith, n, h)))
]

key_string_below :
    (key : ServiceKey) → key_string key ≡ (key.org ++ ("/" ++ (key.project ++ "/"))) ++ key.service
unfolding key_string
key_string_below key = simp append_assoc

-- Every service that GetConfig finds is listed among the services of its project, under its name
-- and with the files that it has.
pub list_services_complete :
    (s : ConfigStore) (key : ServiceKey) (sd : ServiceData)
    → get_config s key ≡ some sd
    → Mem (service_info key.service sd) (list_services s key.org key.project)
unfolding list_services
list_services_complete s key sd h =
    let prefix = key.org ++ ("/" ++ (key.project ++ "/")) in
    (Perm.mem_iff
        (sort_by-Perm (λ a b. str_less a.name b.name) (services_below prefix s.snapshot.data_of))).1
      (Mem-services_below prefix (key_string key) key.service s.snapshot.data_of sd
        (ap (cut_prefix prefix) (key_string_below key) ∙ cut_prefix-append prefix key.service) h)
