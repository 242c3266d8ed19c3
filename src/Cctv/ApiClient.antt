-- ===== src/Cctv/ApiClient.antt =====
-- APIClient of go-legacy/internal/client/api_client.go. What becomes of a request (net/http) and
-- what encoding/json reads in a body are arguments.
pub mod SigningIn
use media_stream.Base.{
  ℕ, ◌≡◌, refl, String, Bool, true, false, Option, none, some, List, [], ◌∷◌, str_eq, ◌==◌, ◌&&◌,
  ◌||◌, not, if◌then◌else◌, Result, ok, err,
}
use media_stream.Base.Int.{ℤ, pos}

pub record CctvInfo : Type 0 where
  pub name : String
  pub url : String

pub record ApiClient : Type 0 where
  pub base_url : String
  pub timeout : ℤ
  pub access_token : String
  pub refresh_token : String
  pub cookies : List String

-- A request; `bearer` is its Authorization header, `credentials` its JSON body.
pub record Request : Type 0 where
  pub method : String
  pub path : String
  pub bearer : Option String
  pub credentials : Option (String × String)

-- The body is `none` where reading it fails.
pub record Response : Type 0 where
  pub status : ℕ
  pub cookies : List String
  pub body : Option String

-- What becomes of a request: it cannot be made, sending it fails, or it is answered.
pub data Exchange : Type 0 where
  not_made not_sent : Exchange
  answered : Response → Exchange

-- The server, as a client meets it in one call.
abbrev pub Server : Type 0
Server = Request → Exchange

-- What encoding/json reads in a body: the two tokens, the status and message of a sync, the array
-- of cameras and the object with its field `data`. `none` is an error.
pub record Json : Type 0 where
  pub read_tokens : String → Option (String × String)
  pub read_sync : String → Option (String × String)
  pub read_array : String → Option (List CctvInfo)
  pub read_object : String → Option (List CctvInfo)

pub data ApiError : Type 0 where
  request_not_made request_not_sent body_not_read no_credentials not_authenticated : ApiError
  bad_status : ℕ → ApiError
  not_decoded : ApiError
  not_completed : String → ApiError

-- NewAPIClient
unfoldable pub new_api_client : String → ApiClient
new_api_client base_url = record {
  base_url = base_url;
  timeout = pos 30_000_000_000;
  access_token = "";
  refresh_token = "";
  cookies = [];
}

-- SetRequestTimeout
abbrev pub set_request_timeout : ApiClient → ℤ → ApiClient
set_request_timeout c timeout = record c { timeout = timeout }

abbrev pub is_empty : List String → Bool
is_empty [] = true
is_empty (x ∷ xs) = false

-- SignIn, from the body on.
unfoldable pub read_sign_in : Json → ApiClient → String → ApiClient
read_sign_in json c body = if str_eq body "" then c else elim (json.read_tokens body) [
  | none ↦ c
  | some (access, refresh) ↦ record c { access_token = access; refresh_token = refresh }
]

unfoldable pub signed_in : ApiClient → ApiClient × Option ApiError
signed_in c =
    if is_empty c.cookies && str_eq c.access_token "" then (c, some no_credentials) else (c, none)

unfoldable pub accept_sign_in : Json → ApiClient → Response → ApiClient × Option ApiError
unfolding read_sign_in signed_in
accept_sign_in json c resp =
    if not (resp.status == 200) && not (resp.status == 201)
    then (c, some (bad_status resp.status))
    else elim resp.body [
      | none ↦ (record c { cookies = resp.cookies }, some body_not_read)
      | some body ↦ signed_in (read_sign_in json (record c { cookies = resp.cookies }) body)
    ]

unfoldable pub sign_in : Json → Server → ApiClient → String → String → ApiClient × Option ApiError
unfolding accept_sign_in
sign_in json server c username password =
    elim (server (record {
      method = "POST";
      path = "/auth/sign-in";
      bearer = none;
      credentials = some (username, password);
    })) [
      | not_made ↦ (c, some request_not_made)
      | not_sent ↦ (c, some request_not_sent)
      | answered resp ↦ accept_sign_in json c resp
    ]

-- The guard of SyncCCTVs and GetCCTVs, and their request.
abbrev pub is_authenticated : ApiClient → Bool
is_authenticated c = not (str_eq c.access_token "" && is_empty c.cookies)

abbrev pub get_request : ApiClient → String → Request
get_request c path = record {
  method = "GET";
  path = path;
  bearer = if str_eq c.access_token "" then none else some c.access_token;
  credentials = none;
}

abbrev pub sync_status : Option (String × String) → Option ApiError
sync_status none = some not_decoded
sync_status (some (status, message)) =
    if str_eq status "success" || str_eq status "completed"
    then none
    else some (not_completed message)

-- A body that cannot be read is no JSON.
abbrev pub decode_body : {A : Type 0} → (String → Option A) → Option String → Option A
decode_body read none = none
decode_body read (some body) = read body

unfoldable pub sync_answered : Json → Exchange → Option ApiError
sync_answered json not_made = some request_not_made
sync_answered json not_sent = some request_not_sent
sync_answered json (answered resp) =
    if resp.status == 200
    then sync_status (decode_body json.read_sync resp.body)
    else some (bad_status resp.status)

-- SyncCCTVs
unfoldable pub sync_cctvs : Json → Server → ApiClient → Option ApiError
unfolding sync_answered
sync_cctvs json server c =
    if is_authenticated c
    then sync_answered json (server (get_request c "/cctvs/sync"))
    else some not_authenticated

unfoldable pub decode_cctvs : Json → String → Result ApiError (List CctvInfo)
decode_cctvs json body = elim (json.read_array body) [
  | some cctvs ↦ ok cctvs
  | none ↦ elim (json.read_object body) [ some cctvs ↦ ok cctvs | none ↦ err not_decoded ]
]

unfoldable pub cctvs_answered : Json → Exchange → Result ApiError (List CctvInfo)
unfolding decode_cctvs
cctvs_answered json not_made = err request_not_made
cctvs_answered json not_sent = err request_not_sent
cctvs_answered json (answered resp) =
    if resp.status == 200
    then elim resp.body [ none ↦ err body_not_read | some body ↦ decode_cctvs json body ]
    else err (bad_status resp.status)

-- APIClient.GetCCTVs
unfoldable pub list_cctvs : Json → Server → ApiClient → Result ApiError (List CctvInfo)
unfolding cctvs_answered
list_cctvs json server c =
    if is_authenticated c
    then cctvs_answered json (server (get_request c "/cctvs"))
    else err not_authenticated
