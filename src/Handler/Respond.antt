-- ===== src/Handler/Respond.antt =====
-- internal/handler/handler.go: respondError and errorDetailFor over the codes of internal/apperror,
-- the checks of conditional requests, and the keys that requireKey accepts.
pub mod Laws
pub mod Tests
use Prim.Native.Char.{Char, code}
use Prim.Native.String.{String}
use aap_config_server.Base.{
  ℕ, Bool, true, false, not, ◌&&◌, ◌||◌, Option, none, some, List, [], ◌∷◌, if◌then◌else◌, nat_beq,
  leb, ◌+◌,
}
use aap_config_server.Base.Eq.{◌==◌, text_has_eq}
use aap_config_server.Base.Text.{split_on, cut_prefix}

pub data Code : Type 0 where
  code_not_found : Code
  code_conflict : Code
  code_validation : Code
  code_git_push : Code
  code_unauthorized : Code
  code_internal : Code

-- What an error is to errors.Is and errors.As: the context's errors anywhere in its chain, and the
-- first apperror.Error of the chain.
pub record AppError : Type 0 where
  pub is_canceled : Bool
  pub is_deadline_exceeded : Bool
  pub app : Option (Code × String)

pub record ErrorDetail : Type 0 where
  pub error_code : String
  pub message : String

abbrev pub internal_detail : ErrorDetail
internal_detail = record { error_code = "internal"; message = "internal server error" }

-- the switch of errorDetailFor
unfoldable pub app_detail : Option (Code × String) → ErrorDetail
app_detail none = internal_detail
app_detail (some (code_not_found, m)) = record { error_code = "not_found"; message = m }
app_detail (some (code_validation, m)) = record { error_code = "validation"; message = m }
app_detail (some (code_conflict, m)) = record { error_code = "conflict"; message = m }
app_detail (some (code_unauthorized, m)) = record { error_code = "unauthorized"; message = m }
app_detail (some (code_git_push, m)) = record { error_code = "git_push_failed"; message = m }
app_detail (some (code_internal, m)) = internal_detail

-- errorDetailFor
abbrev pub error_detail_for : AppError → ErrorDetail
error_detail_for e = app_detail e.app

-- the switch of respondError: the status and the body
unfoldable pub app_response : Option (Code × String) → ℕ × ErrorDetail
app_response none = (500, internal_detail)
app_response (some (code_not_found, m)) = (404, record { error_code = "not_found"; message = m })
app_response (some (code_validation, m)) = (400, record { error_code = "validation"; message = m })
app_response (some (code_conflict, m)) = (409, record { error_code = "conflict"; message = m })
app_response (some (code_unauthorized, m)) =
    (401, record { error_code = "unauthorized"; message = m })
app_response (some (code_git_push, m)) =
    (503, record { error_code = "git_push_failed"; message = m })
app_response (some (code_internal, m)) = (500, internal_detail)

-- respondError
unfoldable pub respond_error : AppError → ℕ × ErrorDetail
respond_error e =
    if e.is_canceled
    then (
      499,
      record { error_code = "client_closed_request"; message = "client cancelled request" },
    )
    else if e.is_deadline_exceeded
    then (504, record { error_code = "deadline_exceeded"; message = "request deadline exceeded" })
    else app_response e.app

module _ (trim_space : String → String) where
  abbrev pub weak_matches : String → Option String → Bool
  weak_matches etag none = false
  weak_matches etag (some rest) = trim_space rest == etag

  abbrev pub candidate_matches : String → String → Bool
  candidate_matches etag candidate =
      candidate == "*" || (candidate == etag || weak_matches etag (cut_prefix "W/" candidate))

  unfoldable pub some_candidate : String → List String → Bool
  some_candidate etag [] = false
  some_candidate etag (raw ∷ raws) =
      candidate_matches etag (trim_space raw) || some_candidate etag raws

  -- ifNoneMatch, on the header's value; `trim_space` is strings.TrimSpace
  unfoldable pub if_none_match : String → String → Bool
  if_none_match raw etag = if raw == "" then false else some_candidate etag (split_on b',' raw)

pub data CacheableAnswer : Type 0 where
  precondition_failed : CacheableAnswer
  not_modified : CacheableAnswer
  full_gzip : CacheableAnswer
  full_json : CacheableAnswer

-- respondCacheableJSON: the method is GET or HEAD, and whether gzip is accepted
unfoldable pub respond_cacheable :
    (String → String) → Bool → Bool → String → String → CacheableAnswer
respond_cacheable trim_space is_read accepts_gzip raw etag =
    if if_none_match trim_space raw etag
    then if is_read then not_modified else precondition_failed
    else if accepts_gzip
    then full_gzip
    else full_json

abbrev pub prepend : Char → Option (String × String) → Option (String × String)
prepend c none = none
prepend c (some (before, after)) = some (String.◌∷◌ c before, after)

-- `strings.Cut(v, " ")`, at the first space
unfoldable pub cut_space : String → Option (String × String)
cut_space String.[] = none
cut_space (String.◌∷◌ c s) =
    let rest = cut_space s in if nat_beq (code c) b' ' then some (String.[], s) else prepend c rest

abbrev pub lower : ℕ → ℕ
lower c = if leb b'A' c && leb c b'Z' then c + 32 else c

-- `strings.EqualFold` against a text of ASCII letters other than k and s, which have no partner
-- outside of ASCII
unfoldable pub equal_fold : String → String → Bool
equal_fold String.[] String.[] = true
equal_fold String.[] (String.◌∷◌ d t) = false
equal_fold (String.◌∷◌ c s) String.[] = false
equal_fold (String.◌∷◌ c s) (String.◌∷◌ d t) =
    nat_beq (lower (code c)) (lower (code d)) && equal_fold s t

-- the token of an Authorization header whose scheme is Bearer
abbrev pub bearer_token : Option (String × String) → Option String
bearer_token none = none
bearer_token (some (scheme, token)) = if equal_fold scheme "bearer" then some token else none

-- constantTimeEqual, whose time is not observed here
abbrev pub constant_time_equal : String → String → Bool
constant_time_equal a b = a == b

-- the second half of authorized
abbrev pub api_key_matches : String → String → Bool
api_key_matches api_key key = if api_key == "" then false else constant_time_equal api_key key

abbrev pub matches_or : String → String → Option String → Bool
matches_or api_key key (some token) = constant_time_equal token key
matches_or api_key key none = api_key_matches api_key key

-- authorized, on the values of the headers Authorization and X-API-Key
unfoldable pub authorized : String → String → String → Bool
authorized authorization api_key key =
    if authorization == ""
    then api_key_matches api_key key
    else matches_or api_key key (bearer_token (cut_space authorization))

-- authenticate: the request goes on
unfoldable pub authenticate : String → String → String → Bool
authenticate server_key authorization api_key =
    if server_key == "" then true else authorized authorization api_key server_key
