-- ===== src/Routes/Pages.antt =====
-- Redirects, pages and errors of an authorized request.
use terminald.Base.{
  ◌↔◌, List, [], ◌++◌, Option, none, some, true, false, ◌≡◌, ◌≢◌, refl, sym, ap, ◌∙◌, inl, inr,
  arith, Bytes, codes, Error, Result, ok, err, if◌then◌else◌, Bool-cases,
}
use terminald.Http.{get, Request, Response}
use terminald.Auth.{Authorization, authorized, rejected, rejection_response}
use terminald.Assets.{Asset, FileSystem, has_parent_segment, load}
use terminald.Assets.Loading.{IsBelow, load_reads_below, load_parent, load_order}
use terminald.Assets.Paths.{has_parent_segment-append}
use terminald.Assets.Index.{load_slash}
use terminald.Routes.{
  AppState, Services, Outcome, reply, redirect, upgrade, answer, authorize, page, dispatch,
  status_response, is_extensionless_without_trailing_slash,
}
use terminald.Routes.Segments.{IsPagePath, IsBare, extensionless_iff}
use terminald.Routes.Paths.{no_auth_check_slash, no_socket_slash, no_redirect_slash}

answer_of_found :
    (render render' : Error → Bytes) (o : Option Asset)
    → answer render (ok o) ≡ answer render' (ok o)
unfolding answer
answer_of_found render render' (some asset) = refl
answer_of_found render render' none = refl

answer-ne-redirect :
    (render : Error → Bytes) (r : Result (Option Asset)) (l : Bytes) → answer render r ≢ redirect l
unfolding answer
answer-ne-redirect render (ok (some asset)) l = λ h. cc
answer-ne-redirect render (ok none) l = λ h. cc
answer-ne-redirect render (err e) l = λ h. cc

upgrade-ne-redirect : (o : Option Response) (c : List Bytes) (l : Bytes) → upgrade o c ≢ redirect l
unfolding upgrade
upgrade-ne-redirect none c l = λ h. cc
upgrade-ne-redirect (some r) c l = λ h. cc

module _ (services : Services) (state : AppState) where
  abbrev at : Request → Bytes → Request
  at request path = record request { path = path }

  authorize-at :
      (request : Request) (path : Bytes)
      → authorize services state (at request path) ≡ authorize services state request
  unfolding authorize terminald.Auth.authorize_request
  authorize-at request path = refl

  answer_at : Bytes → Outcome
  answer_at path = answer services.render (load services.fs services.files state.assets path)

  page_redirect :
      (request : Request) (location : Bytes)
      → page services state request ≡ redirect location
      → (is_extensionless_without_trailing_slash request.path request.method ≡ true)
        × (location ≡ request.path ++ codes "/")
  unfolding page
  page_redirect request location h = ground (
    arith,
    answer-ne-redirect services.render (load services.fs services.files state.assets request.path)
        location,
  )

  dispatch_redirect_sound :
      (request : Request) (location : Bytes)
      → dispatch services state request ≡ redirect location
      → (authorize services state request ≡ authorized)
        × (is_extensionless_without_trailing_slash request.path request.method ≡ true)
        × (location ≡ request.path ++ codes "/")
  unfolding dispatch
  dispatch_redirect_sound request location h = ground (
    arith,
    page_redirect request location,
    upgrade-ne-redirect (services.upgrade_rejection request) state.command location,
  )

  -- How a path with a slash at its end is answered.
  dispatch_slash :
      (request : Request) (path : Bytes)
      → authorize services state request ≡ authorized
      → dispatch services state (at request (path ++ codes "/")) ≡ answer_at (path ++ codes "/")
  unfolding dispatch page answer_at
  dispatch_slash request path a = rw (
    no_auth_check_slash path,
    no_socket_slash path,
    authorize-at request (path ++ codes "/"),
    a,
    no_redirect_slash path request.method,
  )

  answer_at_parent :
      (path : Bytes)
      → has_parent_segment path ≡ true
      → answer_at (path ++ codes "/") ≡ reply (status_response 404)
  unfolding answer_at answer
  answer_at_parent path h =
      let still : has_parent_segment (path ++ codes "/") ≡ true =
        has_parent_segment-append path [] ∙ rw h in
      rw (load_parent services.files state.assets services.fs (path ++ codes "/") still)

  answer_at_slash :
      (path : Bytes)
      → has_parent_segment path ≡ false
      → answer_at (path ++ codes "/") ≡ answer_at (codes "/")
  unfolding answer_at
  answer_at_slash path h =
      ap (answer services.render) (load_slash services.fs services.files state.assets path h)

  -- A redirect is followed once: the request for its location is answered with no redirect, and with
  -- what `/` is answered with, or as not found if the path has a `..` segment.
  pub dispatch_redirect_followed :
      (request : Request) (location : Bytes)
      → dispatch services state request ≡ redirect location
      → (dispatch services state (at request location) ≡ (
          if has_parent_segment request.path
          then reply (status_response 404)
          else dispatch services state (at request (codes "/"))))
        × ((next : Bytes) → dispatch services state (at request location) ≢ redirect next)
  dispatch_redirect_followed request location h =
      let (a, _, e) = dispatch_redirect_sound request location h in
      let followed : dispatch services state (at request location)
          ≡ answer_at (request.path ++ codes "/") =
        rw e (dispatch_slash request request.path a) in
      (
        elim (Bool-cases (has_parent_segment request.path)) [
          | inl up ↦ rw (up, followed) (answer_at_parent request.path up)
          | inr down ↦
              rw (down, followed)
                (answer_at_slash request.path down ∙ sym (dispatch_slash request [] a))
        ],
        λ next r. unfold answer_at in answer-ne-redirect services.render _ next (sym followed ∙ r),
      )

  dispatch_redirect_page :
      (request : Request) (location : Bytes)
      → dispatch services state request ≡ redirect location
      → IsPagePath request.path
  unfolding dispatch
  dispatch_redirect_page request location h =
      ground
        (arith, upgrade-ne-redirect (services.upgrade_rejection request) state.command location)

  dispatch_redirects :
      (request : Request)
      → authorize services state request ≡ authorized
      → IsPagePath request.path
      → is_extensionless_without_trailing_slash request.path request.method ≡ true
      → dispatch services state request ≡ redirect (request.path ++ codes "/")
  unfolding dispatch page
  dispatch_redirects request a p h = ground arith

  -- A request is redirected exactly when it is authorized and is a `GET` of a page whose last segment
  -- has no dot and no slash behind it. The location is its path with a slash, whatever the path begins
  -- with: behind `//` it names a host.
  pub dispatch_redirect_iff :
      (request : Request) (location : Bytes)
      → (dispatch services state request ≡ redirect location) ↔ (
          (authorize services state request ≡ authorized)
          × IsPagePath request.path
          × (request.method ≡ get)
          × IsBare request.path
          × (location ≡ request.path ++ codes "/"))
  dispatch_redirect_iff request location = (
    λ h.
        let (a, found, e) = dispatch_redirect_sound request location h in
        let page = dispatch_redirect_page request location h in
        let (is_get, bare) = (extensionless_iff request.path request.method page).0 found in
        (a, page, is_get, bare, e),
    λ (a, page, is_get, bare, e).
        let found = (extensionless_iff request.path request.method page).1 (is_get, bare) in
        dispatch_redirects request a page found ∙ ap redirect (sym e),
  )

  load_never_fails :
      (path : Bytes)
      → (o : Option Asset) × (load services.fs services.files state.assets path ≡ ok o)
  load_never_fails path = elim (Bool-cases (has_parent_segment path)) [
    | inl up ↦ (none, load_parent services.files state.assets services.fs path up)
    | inr down ↦ (_, load_order services.files services.fs state.assets path down)
  ]

  -- The answer to a request does not depend on what `{error:#}` prints: the branch that reports an
  -- internal error is not taken.
  pub dispatch_no_internal_error :
      (render : Error → Bytes) (request : Request)
      → dispatch services state request
        ≡ dispatch (record services { render = render }) state request
  unfolding dispatch page authorize
  dispatch_no_internal_error render request =
      let (o, e) = load_never_fails request.path in rw (e, answer_of_found services.render render o)

  -- The answer to a request depends on no file outside of the external root.
  pub dispatch_reads_below :
      (fs : FileSystem) (request : Request)
      → ((root file : Bytes)
          → state.assets.external_dist ≡ some root
          → IsBelow root file
          → services.fs file ≡ fs file)
      → dispatch services state request ≡ dispatch (record services { fs = fs }) state request
  unfolding dispatch page authorize
  dispatch_reads_below fs request agree =
      let same = load_reads_below services.files state.assets services.fs fs request.path agree in
      rw same
