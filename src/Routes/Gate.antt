-- ===== src/Routes/Gate.antt =====
-- Nothing but the rejection leaves the server for a request that is not authorized.
use terminald.Base.{
  List, Option, none, some, true, false, ◌||◌, ◌≡◌, ◌≢◌, ◌↔◌, refl, ◌⊎◌, inl, inr, arith, Bytes,
  codes, Error, Result, ok, err,
}
use terminald.Text.{bytes_eq, ends_with}
use terminald.Http.{IsHttp, IsBase64, Request}
use terminald.Auth.{Authorization, authorized, rejected, rejection_response}
use terminald.Auth.Access.{Grants, authorize_request_iff}
use terminald.Assets.{Asset, load}
use terminald.Routes.{AppState, Services, reply, socket, upgrade, answer, authorize, page, dispatch}

Authorization-cases : (a : Authorization) → (a ≡ authorized) ⊎ (a ≡ rejected)
Authorization-cases authorized = inl refl
Authorization-cases rejected = inr refl

answer-ne-socket :
    (render : Error → Bytes) (r : Result (Option Asset)) (command : List Bytes)
    → answer render r ≢ socket command
unfolding answer
answer-ne-socket render (ok (some asset)) command = λ h. cc
answer-ne-socket render (ok none) command = λ h. cc
answer-ne-socket render (err e) command = λ h. cc

-- The request asks for the websocket.
abbrev pub IsSocketPath : Bytes → Type 0
IsSocketPath path =
    ((ends_with path (codes "/auth/check") || bytes_eq path (codes "/auth/check")) ≡ false)
    × ((ends_with path (codes "/ws") || bytes_eq path (codes "/ws")) ≡ true)

module _ (services : Services) (state : AppState) (request : Request) where
  page-ne-socket : (command : List Bytes) → page services state request ≢ socket command
  unfolding page
  page-ne-socket command = ground (
    arith,
    answer-ne-socket services.render (load services.fs services.files state.assets request.path)
        command,
  )

  dispatch_of_rejected :
      authorize services state request ≡ rejected
      → dispatch services state request ≡ reply rejection_response
  unfolding dispatch
  dispatch_of_rejected h = ground arith

  dispatch_socket_sound :
      (command : List Bytes)
      → dispatch services state request ≡ socket command
      → (authorize services state request ≡ authorized)
        × (command ≡ state.command)
        × IsSocketPath request.path
        × (services.upgrade_rejection request ≡ none)
  unfolding dispatch upgrade
  dispatch_socket_sound command h = ground (arith, page-ne-socket command)

  dispatch_socket_complete :
      authorize services state request ≡ authorized
      → IsSocketPath request.path
      → services.upgrade_rejection request ≡ none
      → dispatch services state request ≡ socket state.command
  unfolding dispatch upgrade
  dispatch_socket_complete a p u = ground arith

  -- Without credentials the rejection is the answer at every path, whatever the method.
  pub dispatch_unauthorized :
      IsHttp services.http
      → IsBase64 services.base64
      → ¬ Grants services.base64 state.auth request.headers
      → dispatch services state request ≡ reply rejection_response
  dispatch_unauthorized lawful coder denied =
      elim (Authorization-cases (authorize services state request)) [
        | inl a ↦ absurd (
            denied (
              (authorize_request_iff services.http lawful services.base64 coder state.auth
                  request).0
                (unfold authorize in a)))
        | inr r ↦ dispatch_of_rejected r
      ]

  -- The command is run for a request exactly when the request is authorized, its path ends in `/ws`
  -- (and not in `/auth/check`) and the websocket handshake is accepted; it is the configured command.
  pub dispatch_socket_iff :
      (command : List Bytes)
      → (dispatch services state request ≡ socket command) ↔ (
          (authorize services state request ≡ authorized)
          × (command ≡ state.command)
          × IsSocketPath request.path
          × (services.upgrade_rejection request ≡ none))
  dispatch_socket_iff command =
      (dispatch_socket_sound command, λ (a, c, p, u). rw c (dispatch_socket_complete a p u))
