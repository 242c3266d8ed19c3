-- ===== src/Rtsp/PathManager/Published.antt =====
-- Whether a path has a publisher, through the methods of the path and GetOrCreatePath.
use media_stream.Base.{
  ℕ, ◌≡◌, refl, String, Bool, true, false, Option, none, some, List, arith, str_eq, eq_iff, eq_refl,
  is_some, Option-cases, Bool-cases, inl, inr, ok, err, Result, ◌∙◌,
}
use media_stream.GoMap
use media_stream.GoMap.{GoMap, get-put}
use media_stream.Core.StreamManager.{StreamManager, ManagerError, create_stream}
use media_stream.Rtsp.Names.{strip_slash}
use media_stream.Rtsp.Sdp.{Media}
use media_stream.Rtsp.RtspPath.{
  RtspPath, RtspError, register_publisher, activate_publisher, register_subscriber, get_sdp,
  activate, activated, Subscriber, add_subscriber,
}
use media_stream.Rtsp.PathManager.{
  PathManager, get_or_create_path, create_path, new_path, insert_path, path_created, attached,
}

abbrev pub has_publisher : Option RtspPath → Bool
has_publisher none = false
has_publisher (some p) = is_some p.publisher

abbrev pub published : PathManager → String → Bool
published pm id = has_publisher (GoMap.get pm.paths id)

pub published-put :
    (pm : PathManager) (m : StreamManager) (k id : String) (q : RtspPath)
    → ((p : RtspPath)
        → GoMap.get pm.paths k ≡ some p
        → is_some p.publisher ≡ true
        → is_some q.publisher ≡ true)
    → published pm id ≡ true
    → published (record { paths = GoMap.put pm.paths k q; streams = m }) id ≡ true
published-put pm m k id q f h = elim (Bool-cases (str_eq k id)) [
  | inr ne ↦ rw (get-put pm.paths k id q, ne) h
  | inl same ↦ elim (Option-cases (GoMap.get pm.paths k)) [
    | inl e ↦ ground (arith, eq_iff k id)
    | inr (p, e) ↦ rw (get-put pm.paths k id q, same) (f p e (ground (arith, eq_iff k id)))
  ]
]

pub register_publisher-keeps :
    (m : StreamManager) (p : RtspPath) (session : String) (medias : List Media)
    → is_some p.publisher ≡ true
    → is_some (register_publisher m p session medias).1.publisher ≡ true
unfolding register_publisher
register_publisher-keeps m p session medias h = ground (arith, Option-cases p.publisher)

pub activate_publisher-keeps :
    (p : RtspPath) → is_some p.publisher ≡ true → is_some (activate_publisher p).0.publisher ≡ true
unfolding activate_publisher activate
activate_publisher-keeps p h = ground (arith, Option-cases p.publisher)

activated-publisher :
    (p : RtspPath) (session : String) (t : StreamManager × Subscriber × Option RtspError)
    → (activated p session t).1.publisher ≡ p.publisher
unfolding activated
activated-publisher p session (m, u, none) = refl
activated-publisher p session (m, u, some e) = refl

pub register_subscriber-publisher :
    (m : StreamManager) (p : RtspPath) (session : String)
    → (register_subscriber m p session).1.publisher ≡ p.publisher
unfolding register_subscriber add_subscriber
register_subscriber-publisher m p session =
    elim (Bool-cases (GoMap.contains p.subscribers session)) [
      | inl h ↦ rw (h, register_subscriber) refl
      | inr h ↦ elim (Option-cases p.server_stream) [
        | inl e ↦ rw (h, e, register_subscriber) refl
        | inr (ss, e) ↦ rw (h, e, register_subscriber) (activated-publisher p session _)
      ]
    ]

pub get_sdp-publisher : (m : StreamManager) (p : RtspPath) → (get_sdp m p).0.publisher ≡ p.publisher
unfolding get_sdp
get_sdp-publisher m p = ground arith

insert_path-keeps :
    (pm : PathManager) (m : StreamManager) (k id : String) (r : ℕ)
    → GoMap.get pm.paths k ≡ none
    → published pm id ≡ true
    → published (insert_path pm m k r) id ≡ true
unfolding insert_path
insert_path-keeps pm m k id r e h =
    published-put pm m k id (new_path k r) (λ p f. absurd (ground arith)) h

path_created-keeps :
    (pm : PathManager) (k id : String) (o : Result ManagerError (StreamManager × ℕ))
    → GoMap.get pm.paths k ≡ none
    → published pm id ≡ true
    → published (path_created pm k o).0 id ≡ true
unfolding path_created
path_created-keeps pm k id (err x) e h = h
path_created-keeps pm k id (ok (m, r)) e h = insert_path-keeps pm m k id r e h

attached-keeps :
    (pm : PathManager) (k id : String) (o : Result ManagerError ℕ)
    → GoMap.get pm.paths k ≡ none
    → published pm id ≡ true
    → published (attached pm k o).0 id ≡ true
unfolding attached
attached-keeps pm k id (ok r) e h = insert_path-keeps pm pm.streams k id r e h
attached-keeps pm k id (err x) e h = path_created-keeps pm k id (create_stream pm.streams k k) e h

-- The path that GetOrCreatePath returns stands at its key.
abbrev pub Located : String → PathManager × Result RtspError RtspPath → Type 0
Located id t = (p : RtspPath) → t.1 ≡ ok p → GoMap.get t.0.paths id ≡ some p

insert_path-Located :
    (pm : PathManager) (m : StreamManager) (k : String) (r : ℕ)
    → Located k (insert_path pm m k r, ok (new_path k r))
unfolding insert_path
insert_path-Located pm m k r p e =
    get-put pm.paths k k (new_path k r) ∙ rw (eq_refl k) (ground arith)

path_created-Located :
    (pm : PathManager) (k : String) (o : Result ManagerError (StreamManager × ℕ))
    → Located k (path_created pm k o)
unfolding path_created
path_created-Located pm k (err x) = λ p e. ground arith
path_created-Located pm k (ok (m, r)) = insert_path-Located pm m k r

attached-Located :
    (pm : PathManager) (k : String) (o : Result ManagerError ℕ) → Located k (attached pm k o)
unfolding attached
attached-Located pm k (ok r) = insert_path-Located pm pm.streams k r
attached-Located pm k (err x) = path_created-Located pm k (create_stream pm.streams k k)

pub get_or_create_path-Located :
    (pm : PathManager) (name : String) → Located (strip_slash name) (get_or_create_path pm name)
unfolding get_or_create_path create_path
get_or_create_path-Located pm name = elim (Option-cases (GoMap.get pm.paths (strip_slash name))) [
  | inl h ↦ rw (h, get_or_create_path) (attached-Located pm (strip_slash name) _)
  | inr (p, h) ↦ rw (h, get_or_create_path) (λ q e. ground (arith, h))
]

pub get_or_create_path-keeps :
    (pm : PathManager) (name id : String)
    → published pm id ≡ true
    → published (get_or_create_path pm name).0 id ≡ true
unfolding get_or_create_path create_path
get_or_create_path-keeps pm name id k =
    elim (Option-cases (GoMap.get pm.paths (strip_slash name))) [
      | inl h ↦ rw (h, get_or_create_path) (attached-keeps pm (strip_slash name) id _ h k)
      | inr (p, h) ↦ rw (h, get_or_create_path) k
    ]
