-- ===== src/Secret/Volume/Tests.antt =====
-- internal/secret/volume.go: tests, and runs of the theorems on them.
use Prim.Native.String.{String}
use aap_config_server.Base.{◌≡◌, refl, false, none, List, [], ◌∷◌, ◌++◌}
use aap_config_server.Base.Eq.{text_has_eq}
use aap_config_server.Base.Map.{lookup, insert, remove}
use aap_config_server.Base.Text.{lacks, split_on}
use aap_config_server.Secret.Volume.{
  validate_path_segment, join_path, clean_from, relative_path, Reference, validate_reference,
  path_of, done, failed, Reader, FileRead, contents, unreadable, refresh, read, forget, read_failed,
  invalid_part,
}
use aap_config_server.Secret.Volume.Laws.{path_of_lem}

abbrev mount : List String
mount = "var" ∷ "secrets" ∷ []

abbrev password : Reference
password = record { id = "db-password"; namespace = "prod"; name = "db"; key = "password" }

abbrev climbing : Reference
climbing = record { id = "db-password"; namespace = ".."; name = "db"; key = "password" }

abbrev empty_reader : Reader String
empty_reader = record { mount = mount; cache = [] }

abbrev files : List String → FileRead String
files path = contents "s3cret"

abbrev no_files : List String → FileRead String
no_files path = unreadable "no such file"

climbing_refused : path_of mount climbing ≡ failed invalid_part
unfolding path_of validate_reference validate_path_segment
climbing_refused = refl

forgotten :
    (read
      (forget (refresh empty_reader password false false files).0 password)
      password
      false
      false
      false
      no_files).1
    ≡ failed (read_failed "no such file")
unfolding read refresh forget path_of validate_reference validate_path_segment lacks join_path
    clean_from split_on relative_path lookup remove insert
forgotten = refl

password_valid : validate_reference password ≡ none
unfolding validate_reference validate_path_segment lacks
password_valid = refl

path_of_lem_example : path_of mount password ≡ done (mount ++ "prod" ∷ "db" ∷ "password" ∷ [])
path_of_lem_example = path_of_lem mount password password_valid

refreshed : (refresh empty_reader password false false files).1 ≡ done "s3cret"
unfolding refresh path_of validate_reference validate_path_segment lacks join_path clean_from
    split_on relative_path insert
refreshed = refl
