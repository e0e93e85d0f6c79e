-- ===== src/Handler/Respond/Tests.antt =====
-- internal/handler/handler.go: credentials and errors.
use aap_config_server.Base.{◌≡◌, refl, true, false, some, arith, eq_iff}
use aap_config_server.Base.Eq.{text_has_eq}
use aap_config_server.Base.Text.{split_on, cut_prefix}
use aap_config_server.Handler.Respond.{
  AppError, code_internal, authenticate, authorized, cut_space, equal_fold, if_none_match,
  some_candidate,
}
use aap_config_server.Handler.Respond.Laws.{Presents, authenticate_sound}

abbrev failure : AppError
failure = record {
  is_canceled = false;
  is_deadline_exceeded = false;
  app = some (code_internal, "read mounted secret value");
}

let_in : authenticate "k3y" "BEARER k3y" "" ≡ true
unfolding authenticate authorized cut_space equal_fold
let_in = refl

-- a wrong bearer token is not made good by the other header
kept_out : authenticate "k3y" "Bearer other" "k3y" ≡ false
unfolding authenticate authorized cut_space equal_fold
kept_out = refl

weak_matched : if_none_match (λ s. s) "W/\"a\"" "\"a\"" ≡ true
unfolding if_none_match some_candidate split_on cut_prefix
weak_matched = refl

authenticate_sound_example : Presents "BEARER k3y" "" "k3y"
authenticate_sound_example =
    authenticate_sound "k3y" "BEARER k3y" "" (λ e. ground (arith, eq_iff "k3y" "")) let_in
