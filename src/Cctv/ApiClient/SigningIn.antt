-- ===== src/Cctv/ApiClient/SigningIn.antt =====
-- What SignIn makes of the server's answer.
use media_stream.Base.{
  ◌≡◌, ◌≢◌, ◌⊎◌, refl, String, Bool, true, none, some, [], arith, eq_iff, inl, inr, Option-cases,
  ◌==◌, ◌&&◌, ◌||◌, is_some,
}
use media_stream.Cctv.ApiClient.{
  ApiClient, Server, Exchange, answered, not_made, not_sent, Json, Response, Request,
  is_authenticated, sign_in, accept_sign_in, read_sign_in, signed_in, sync_cctvs, list_cctvs,
  sync_answered, cctvs_answered, get_request,
}

abbrev pub sign_in_request : String → String → Request
sign_in_request username password = record {
  method = "POST";
  path = "/auth/sign-in";
  bearer = none;
  credentials = some (username, password);
}

-- The answer is a success with a body that can be read.
abbrev pub is_accepted : Response → Bool
is_accepted resp = (resp.status == 200 || resp.status == 201) && is_some resp.body

accept_sign_in-none :
    (json : Json) (c : ApiClient) (resp : Response)
    → (accept_sign_in json c resp).1 ≡ none
    → (is_accepted resp ≡ true) × (is_authenticated (accept_sign_in json c resp).0 ≡ true)
unfolding accept_sign_in read_sign_in signed_in
accept_sign_in-none json c resp h = ground (arith, h, Option-cases resp.body)

Exchange-cases :
    (x : Exchange) → ((x ≡ not_made) ⊎ (x ≡ not_sent)) ⊎ ((resp : Response) × (x ≡ answered resp))
Exchange-cases not_made = inl (inl refl)
Exchange-cases not_sent = inl (inr refl)
Exchange-cases (answered resp) = inr (resp, refl)

-- SignIn returns nil only if the server answered its request with 200 or 201 and a body that can be
-- read. The client then has an access token or a cookie, so that what SyncCCTVs and GetCCTVs return
-- is what the server's answer to their request makes it.
sign_in-is_authenticated :
    (json : Json) (server later : Server) (c : ApiClient) (username password : String)
    → (sign_in json server c username password).1 ≡ none
    → (resp : Response) × (server (sign_in_request username password) ≡ answered resp)
      × (is_accepted resp ≡ true)
      × (sync_cctvs json later (sign_in json server c username password).0
          ≡ sync_answered json
              (later (get_request (sign_in json server c username password).0 "/cctvs/sync")))
      × (list_cctvs json later (sign_in json server c username password).0
          ≡ cctvs_answered json
              (later (get_request (sign_in json server c username password).0 "/cctvs")))
unfolding sign_in sync_cctvs list_cctvs
sign_in-is_authenticated json server later c username password h =
    elim (Exchange-cases (server (sign_in_request username password))) [
      | inl f ↦ absurd (ground (arith, h, f))
      | inr (resp, e) ↦
          (let got = accept_sign_in-none json c resp (rw (e, sign_in) at h) in
            rw (e, sign_in) (resp, refl, got.0, ground (arith, got.1), ground (arith, got.1)))
    ]

-- If the client has an access token from before, SignIn returns nil on any successful answer without
-- cookies whose body is empty or holds no tokens: the client keeps the old token, although the
-- server sent no credentials.
stale_token_passes :
    (json : Json) (server : Server) (c : ApiClient) (username password : String) (resp : Response)
    (body : String)
    → server (sign_in_request username password) ≡ answered resp
    → is_accepted resp ≡ true
    → resp.cookies ≡ []
    → resp.body ≡ some body
    → (body ≡ "") ⊎ (json.read_tokens body ≡ none)
    → c.access_token ≢ ""
    → sign_in json server c username password ≡ (record c { cookies = [] }, none)
unfolding sign_in accept_sign_in read_sign_in signed_in
stale_token_passes json server c username password resp body e a k b t n =
    rw (e, sign_in) (ground (arith, a, k, b, t, n, eq_iff c.access_token "", eq_iff body ""))
