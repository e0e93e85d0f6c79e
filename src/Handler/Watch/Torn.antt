-- ===== src/Handler/Watch/Torn.antt =====
-- internal/handler/handler.go, configPayloadFromData: a read that a reload comes between.
use mathlib.Core.Option.{some_inj}
use aap_config_server.Base.{
  String, ◌≡◌, refl, sym, ap, ◌∙◌, ◌≢◌, true, false, some, List, [], ◌∷◌, inl, inr, eq_iff, All,
  arith,
}
use aap_config_server.Base.Eq.{◌==◌, text_has_eq}
use aap_config_server.Store.Types.{ServiceKey, ServiceData}
use aap_config_server.Store.Versions.{Resource}
use aap_config_server.Store.Reload.{ConfigStore, get_config}
use aap_config_server.Handler.Payload.{
  has_inherited_config_source, config_version, config_payload_from_data,
}
use aap_config_server.Handler.Watch.{Turn, changed, watch, watched_version}
use aap_config_server.Handler.Watch.Laws.{
  watched_version-payload_version, Somewhere, Differs, watch_changed,
}

-- the turn finds this store whenever it reads
abbrev pub Finds : ConfigStore → Turn → Type 0
Finds s turn = (turn.reading ≡ s) × (turn.config_reading ≡ s)

none_differ :
    (key : ServiceKey) (s : ConfigStore) (version head : String)
    → watched_version s s key Resource.config true ≡ some (version, head)
    → (turns : List Turn) → All (Finds s) turns
    → Somewhere (Differs key Resource.config true version) turns
    → ⊥
none_differ key s version head reads [] all d = d
none_differ key s version head reads (turn ∷ turns) (here, all) (inl (token, h, (is, differs))) =
    differs (
      ap (λ x. x.0)
        (some_inj.0 (
          sym is
          ∙ (ap (λ r. watched_version r turn.config_reading key Resource.config true) here.0
              ∙ (ap (λ r. watched_version s r key Resource.config true) here.1 ∙ reads)))))
none_differ key s version head reads (turn ∷ turns) (here, all) (inr d) =
    none_differ key s version head reads turns all d

inherited_version :
    (d : ServiceData) (head later : String)
    → has_inherited_config_source d.inherited_sources ≡ true
    → head ≢ ""
    → config_version true d head later ≡ head
unfolding config_version
inherited_version d head later own there =
    let full : (head == "") ≡ false = ground (arith, eq_iff head "") in rw (own, full) refl

-- A read with inheritance whose data are from before a reload and whose head version is from after
-- it, both with inherited settings, hands out the old settings under the new version; and a watch
-- from that version does not answer "changed" as long as the new store stands, although the
-- settings that it should tell of have been replaced.
pub torn_read_waits :
    (key : ServiceKey) (old new : ConfigStore) (d e : ServiceData) (later : String)
    → (turns : List Turn) → get_config old key ≡ some d
    → get_config new key ≡ some e
    → has_inherited_config_source d.inherited_sources ≡ true
    → has_inherited_config_source e.inherited_sources ≡ true
    → new.snapshot.version ≢ ""
    → All (Finds new) turns
    → ((config_payload_from_data key true d new.snapshot.version later).body
        ≡ (config_payload_from_data key true d old.snapshot.version old.snapshot.version).body)
      × (watch key Resource.config true
            (config_payload_from_data key true d new.snapshot.version later).version
            turns
          ≢ changed)
unfolding config_payload_from_data
torn_read_waits key old new d e later turns before after di ei there finds =
    let v = new.snapshot.version in
    (
      refl,
      λ says.
          none_differ key new (config_version true d v later) v
            (watched_version-payload_version new key Resource.config true e after
              ∙ ap (λ x. some (x, v))
                  (inherited_version e v v ei there ∙ sym (inherited_version d v later di there)))
            turns finds
            (watch_changed key Resource.config true (config_version true d v later) turns says),
    )
