-- ===== src/Secret/Volume/Laws.antt =====
-- internal/secret/volume.go: a valid reference lies below the mount, and the cache answers reads.
use Prim.Native.String.{String}
use mathlib.Core.List.{append_assoc}
use aap_config_server.Base.{
  or_then, or_then-none, ◌≡◌, refl, ap, ◌∙◌, Bool, true, false, Option, none, some, List, [], ◌∷◌,
  ◌++◌, arith, eq_iff,
}
use aap_config_server.Base.Eq.{agree_refl, text_has_eq, ◌==◌}
use aap_config_server.Base.Text.{lacks, split_on-lacks}
use aap_config_server.Base.Map.{lookup, lookup-insert}
use aap_config_server.Secret.Volume.{
  Reference, validate_path_segment, validate_reference, clean_from, join_path, relative_path,
  is_outside, Outcome, done, failed, checked_path, path_after, path_of, Reader, FileRead, contents,
  unreadable, store_value, refresh_at, refresh, read_cached, read_valid, read, reference_has_eq,
  VolumeError,
}

-- a part of a path that `filepath.Clean` keeps as it is
record IsPlain (part : String) : Type 0 where
  full : (part == "") ≡ false
  here : (part == ".") ≡ false
  up : (part == "..") ≡ false
  whole : lacks b'/' part ≡ true

validate_path_segment-IsPlain : (v : String) → validate_path_segment v ≡ none → IsPlain v
unfolding validate_path_segment
validate_path_segment-IsPlain v h = record {
  full = ground arith;
  here = ground arith;
  up = ground arith;
  whole = ground arith;
}

clean_from-IsPlain :
    (path : List String) (a b c : String)
    → IsPlain a
    → IsPlain b
    → IsPlain c
    → clean_from path (a ∷ b ∷ c ∷ []) ≡ ((path ++ a ∷ []) ++ b ∷ []) ++ c ∷ []
unfolding clean_from
clean_from-IsPlain path a b c pa pb pc =
    ground (arith, pa.full, pa.here, pa.up, pb.full, pb.here, pb.up, pc.full, pc.here, pc.up)

relative_path-append : (base rest : List String) → relative_path base (base ++ rest) ≡ rest
unfolding relative_path
relative_path-append [] rest = refl
relative_path-append (b ∷ base) rest = ground (arith, relative_path-append base rest, eq_iff b b)

-- a valid reference has three valid parts
record HasValidParts (ref : Reference) : Type 0 where
  namespace : validate_path_segment ref.namespace ≡ none
  name : validate_path_segment ref.name ≡ none
  key : validate_path_segment ref.key ≡ none

validate_reference-HasValidParts :
    (ref : Reference) → validate_reference ref ≡ none → HasValidParts ref
unfolding validate_reference
validate_reference-HasValidParts ref h =
    let parts =
      or_then-none (validate_path_segment ref.namespace)
        (or_then (validate_path_segment ref.name) (validate_path_segment ref.key)) (ground arith) in
    let last =
      or_then-none (validate_path_segment ref.name) (validate_path_segment ref.key) parts.1 in
    record { namespace = parts.0; name = last.0; key = last.1 }

join_path_lem :
    (mount : List String) (ref : Reference)
    → validate_reference ref ≡ none
    → join_path mount ref.namespace ref.name ref.key
      ≡ mount ++ ref.namespace ∷ ref.name ∷ ref.key ∷ []
unfolding join_path
join_path_lem mount ref h =
    let parts = validate_reference-HasValidParts ref h in
    let a = validate_path_segment-IsPlain ref.namespace parts.namespace in
    let b = validate_path_segment-IsPlain ref.name parts.name in
    let c = validate_path_segment-IsPlain ref.key parts.key in
    rw
      (
        split_on-lacks b'/' ref.namespace a.whole,
        split_on-lacks b'/' ref.name b.whole,
        split_on-lacks b'/' ref.key c.whole,
      )
      (clean_from-IsPlain mount ref.namespace ref.name ref.key a b c ∙ simp append_assoc)

not_outside :
    (mount : List String) (ref : Reference)
    → validate_reference ref ≡ none
    → is_outside (ref.namespace ∷ ref.name ∷ ref.key ∷ []) ≡ false
not_outside mount ref h =
    (validate_path_segment-IsPlain ref.namespace
      (validate_reference-HasValidParts ref h).namespace).up

below_mount :
    (mount rest : List String)
    → is_outside rest ≡ false
    → checked_path mount (mount ++ rest) ≡ done (mount ++ rest)
below_mount mount rest inside = rw (relative_path-append mount rest, inside) refl

-- The file of a valid reference is namespace, name and key below the mount: the check that the path
-- stays below the mount then never refuses.
pub path_of_lem :
    (mount : List String) (ref : Reference)
    → validate_reference ref ≡ none
    → path_of mount ref ≡ done (mount ++ ref.namespace ∷ ref.name ∷ ref.key ∷ [])
unfolding path_of
path_of_lem mount ref h =
    ap (path_after mount ref) h
    ∙ (ap (checked_path mount) (join_path_lem mount ref h)
        ∙ below_mount mount (ref.namespace ∷ ref.name ∷ ref.key ∷ []) (not_outside mount ref h))

module _ {Bytes : Type 0} where
  abbrev held_value : Outcome Bytes → Option Bytes
  held_value (done value) = some value
  held_value (failed why) = none

  -- the reader holds the value it has just given
  abbrev Holds : Reference → Bytes → Reader Bytes × Outcome Bytes → Type 0
  Holds ref value result = result.1 ≡ done value → lookup ref (result.0).cache ≡ some value

  store_value-Holds :
      (reader : Reader Bytes) (ref : Reference) (done_after : Bool) (file : FileRead Bytes)
      (value : Bytes)
      → Holds ref value (store_value reader ref done_after file)
  store_value-Holds reader ref done_after (unreadable why) value h = absurd (cc h)
  store_value-Holds reader ref true (contents raw) value h = absurd (cc h)
  store_value-Holds reader ref false (contents raw) value h =
      lookup-insert ref ref raw reader.cache ∙ rw (agree_refl ref) (ap held_value h)

  refresh_at-Holds :
      (reader : Reader Bytes) (ref : Reference) (done_after : Bool)
      (files : List String → FileRead Bytes) (path : Outcome (List String)) (value : Bytes)
      → Holds ref value (refresh_at reader ref done_after files path)
  refresh_at-Holds reader ref done_after files (failed why) value h = absurd (cc h)
  refresh_at-Holds reader ref done_after files (done path) value h =
      store_value-Holds reader ref done_after (files path) value h

  refresh_at_path :
      (reader : Reader Bytes) (ref : Reference) (done_after : Bool)
      (files : List String → FileRead Bytes) (checked : Option VolumeError) (value : Bytes)
      → (refresh_at reader ref done_after files (path_after reader.mount ref checked)).1
        ≡ done value
      → checked ≡ none
  refresh_at_path reader ref done_after files none value h = refl
  refresh_at_path reader ref done_after files (some why) value h = absurd (cc h)

  read_held :
      (reader : Reader Bytes) (ref : Reference) (done_before done_after : Bool)
      (files : List String → FileRead Bytes) (value : Bytes)
      → validate_reference ref ≡ none
      → lookup ref reader.cache ≡ some value
      → read reader ref false done_before done_after files ≡ (reader, done value)
  unfolding read
  read_held reader ref done_before done_after files value valid held =
      ap (read_valid reader (refresh reader ref done_before done_after files) ref) valid
      ∙ ap (read_cached reader (refresh reader ref done_before done_after files)) held

  -- After a refresh that gave a value, a read whose context is live gives the same value and changes
  -- nothing, whatever the file system holds by then.
  pub read-refresh :
      (reader : Reader Bytes) (ref : Reference) (done_before done_after : Bool)
      (files : List String → FileRead Bytes) (value : Bytes)
      → (refresh reader ref done_before done_after files).1 ≡ done value
      → (before after : Bool) (later : List String → FileRead Bytes)
      → read (refresh reader ref done_before done_after files).0 ref false before after later
        ≡ ((refresh reader ref done_before done_after files).0, done value)
  unfolding refresh path_of
  read-refresh reader ref true done_after files value h before after later = absurd (cc h)
  read-refresh reader ref false done_after files value h before after later =
      read_held (refresh reader ref false done_after files).0 ref before after later value
        (refresh_at_path reader ref done_after files (validate_reference ref) value h)
        (refresh_at-Holds reader ref done_after files (path_of reader.mount ref) value h)
