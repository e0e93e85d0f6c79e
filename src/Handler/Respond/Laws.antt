-- ===== src/Handler/Respond/Laws.antt =====
-- internal/handler/handler.go: who is let in, and which error reaches the client.
use Prim.Native.Char.{Char, code}
use Prim.Native.String.{String, ◌++◌ as str_append}
use Prim.Native.String.append
use text.Mathlib.TextEquality.{Char-path}
use mathlib.Core.Option.{some_inj}
use mathlib.Core.Path.{subst}
use aap_config_server.Base.{
  ◌≡◌, refl, sym, ap, ◌∙◌, ◌≢◌, ◌⊎◌, ℕ, Bool, true, false, Option, none, some, if◌then◌else◌, inl,
  inr, eq_iff, arith, nat_beq, nat_beq_iff,
}
use aap_config_server.Base.Text.{singleton-append}
use aap_config_server.Base.Eq.{◌==◌, text_has_eq}
use aap_config_server.Handler.Respond.{
  Code, code_not_found, code_validation, code_conflict, code_unauthorized, code_git_push,
  code_internal, AppError, ErrorDetail, internal_detail, app_detail, error_detail_for, app_response,
  respond_error, prepend, cut_space, equal_fold, bearer_token, matches_or, api_key_matches,
  authorized, authenticate,
}

-- the codes that both switches give
app_response-app_detail : (app : Option (Code × String)) → (app_response app).1 ≡ app_detail app
unfolding app_response app_detail
app_response-app_detail none = refl
app_response-app_detail (some (code_not_found, m)) = refl
app_response-app_detail (some (code_validation, m)) = refl
app_response-app_detail (some (code_conflict, m)) = refl
app_response-app_detail (some (code_unauthorized, m)) = refl
app_response-app_detail (some (code_git_push, m)) = refl
app_response-app_detail (some (code_internal, m)) = refl

app_response_hides :
    (app : Option (Code × String))
    → (app_response app).0 ≡ 500
    → (app_response app).1 ≡ internal_detail
unfolding app_response
app_response_hides none h = refl
app_response_hides (some (code_not_found, m)) h = ground arith
app_response_hides (some (code_validation, m)) h = ground arith
app_response_hides (some (code_conflict, m)) h = ground arith
app_response_hides (some (code_unauthorized, m)) h = ground arith
app_response_hides (some (code_git_push, m)) h = ground arith
app_response_hides (some (code_internal, m)) h = refl

status_hides :
    (canceled late : Bool) (gone timeout r : ℕ × ErrorDetail)
    → gone.0 ≢ 500
    → timeout.0 ≢ 500
    → (r.0 ≡ 500 → r.1 ≡ internal_detail)
    → (if canceled then gone else if late then timeout else r).0 ≡ 500
    → (if canceled then gone else if late then timeout else r).1 ≡ internal_detail
status_hides true late gone timeout r g t hides h = absurd (g h)
status_hides false true gone timeout r g t hides h = absurd (t h)
status_hides false false gone timeout r g t hides h = hides h

-- A response with status 500 carries the fixed internal message, never that of the error; and
-- unless the error comes from the context, the detail is the one that a batch gives for it.
pub respond_error_lem :
    (e : AppError)
    → ((respond_error e).0 ≡ 500 → (respond_error e).1 ≡ internal_detail)
      × (e.is_canceled ≡ false
          → e.is_deadline_exceeded ≡ false
          → (respond_error e).1 ≡ error_detail_for e)
unfolding respond_error
respond_error_lem e = (
  λ status.
      status_hides e.is_canceled e.is_deadline_exceeded _ _ (app_response e.app) (λ x. ground arith)
        (λ x. ground arith) (app_response_hides e.app) status,
  λ live timely. rw (live, timely) (app_response-app_detail e.app),
)

-- the text before and after a first space
abbrev Parts : String → String × String → Type 0
Parts s parts = s ≡ str_append parts.0 (str_append " " parts.1)

cut_step :
    (c : Char) (s : String) (parts : String × String)
    → (space : Bool) (rest : Option (String × String)) → nat_beq (code c) b' ' ≡ space
    → ((p : String × String) → rest ≡ some p → Parts s p)
    → (if space then some (String.[], s) else prepend c rest) ≡ some parts
    → Parts (String.◌∷◌ c s) parts
cut_step c s parts true rest is ih h =
    subst (λ p. Parts (String.◌∷◌ c s) p) (some_inj.0 h)
      (ap (λ d. String.◌∷◌ d s) (Char-path c " " ((nat_beq_iff (code c) b' ').0 is))
        ∙ (sym (singleton-append " " s) ∙ sym (append.nil (str_append " " s))))
cut_step c s parts false none is ih h = absurd (cc h)
cut_step c s parts false (some (before, after)) is ih h =
    subst (λ p. Parts (String.◌∷◌ c s) p) (some_inj.0 h)
      (ap (λ t. String.◌∷◌ c t) (ih (before, after) refl)
        ∙ sym (append.cons c before (str_append " " after)))

cut_space_sound : (s : String) (parts : String × String) → cut_space s ≡ some parts → Parts s parts
unfolding cut_space
cut_space_sound String.[] parts h = absurd (cc h)
cut_space_sound (String.◌∷◌ c s) parts h =
    cut_step c s parts (nat_beq (code c) b' ') (cut_space s) refl (λ p e. cut_space_sound s p e) h

-- what the header Authorization or X-API-Key must be
abbrev pub Presents : String → String → String → Type 0
Presents authorization api_key key =
    ((scheme : String) × ((equal_fold scheme "bearer" ≡ true) × Parts authorization (scheme, key)))
    ⊎ (api_key ≡ key)

api_key_matches_sound :
    (api_key key : String) (empty : Bool)
    → (if empty then false else api_key == key) ≡ true
    → api_key ≡ key
api_key_matches_sound api_key key true h = absurd (cc h)
api_key_matches_sound api_key key false h = (eq_iff api_key key).0 h

token_sound :
    (authorization api_key key scheme token : String)
    → Parts authorization (scheme, token)
    → (folds : Bool) → equal_fold scheme "bearer" ≡ folds
    → matches_or api_key key (if folds then some token else none) ≡ true
    → Presents authorization api_key key
token_sound authorization api_key key scheme token cut true is h =
    inl
      (scheme, (is, cut ∙ ap (λ t. str_append scheme (str_append " " t)) ((eq_iff token key).0 h)))
token_sound authorization api_key key scheme token cut false is h =
    inr (api_key_matches_sound api_key key (api_key == "") h)

cut_sound :
    (authorization api_key key : String) (cut : Option (String × String))
    → cut_space authorization ≡ cut
    → matches_or api_key key (bearer_token cut) ≡ true
    → Presents authorization api_key key
cut_sound authorization api_key key none is h =
    inr (api_key_matches_sound api_key key (api_key == "") h)
cut_sound authorization api_key key (some (scheme, token)) is h =
    token_sound authorization api_key key scheme token
      (cut_space_sound authorization (scheme, token) is) (equal_fold scheme "bearer") refl h

header_sound :
    (authorization api_key key : String) (empty : Bool)
    → (if empty
        then api_key_matches api_key key
        else matches_or api_key key (bearer_token (cut_space authorization)))
      ≡ true
    → Presents authorization api_key key
header_sound authorization api_key key true h =
    inr (api_key_matches_sound api_key key (api_key == "") h)
header_sound authorization api_key key false h =
    cut_sound authorization api_key key (cut_space authorization) refl h

-- A server with a key lets a request in only if its Authorization header is a scheme that reads
-- "bearer" in some case, a space and the key, or its X-API-Key header is the key.
pub authenticate_sound :
    (server_key authorization api_key : String)
    → server_key ≢ ""
    → authenticate server_key authorization api_key ≡ true
    → Presents authorization api_key server_key
unfolding authenticate authorized
authenticate_sound server_key authorization api_key there h =
    let keyed : (server_key == "") ≡ false = ground (arith, eq_iff server_key "") in
    header_sound authorization api_key server_key (authorization == "") (
      subst (λ b. (if b then true else authorized authorization api_key server_key) ≡ true) keyed h)
