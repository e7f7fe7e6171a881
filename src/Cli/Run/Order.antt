-- ===== src/Cli/Run/Order.antt =====
-- What a client does to its terminal, and where it connects.
use terminald.Base.{
  List, [], ◌∷◌, ◌++◌, Option, none, some, ◌≡◌, refl, ◌⊎◌, inl, inr, Bytes, All, Error, Result, ok,
  err,
}
use terminald.Http.{Base64}
use terminald.Protocol.{Resize, resize, SerdeJson, encode_client}
use terminald.Cli.Args.{ClientConfig}
use terminald.Cli.Client.{Call, Did, read_loop, UrlCrate, resolve_ws_url, basic_auth_header}
use terminald.Cli.Run.{
  Outside, RunCall, enable, disable, connect, send_frame, stdout, Ran, on_stdout, run, guarded,
  with_url, with_request, with_header, parsed, after_connect, first_size, first_frame, after_send,
  prints,
}

-- `HeaderValue::from_str` keeps the text.
pub record IsOutside {U : Type 0} (outside : Outside U) : Type 0 where
  pub keeps : (h v : Bytes) → outside.parse_header h ≡ ok v → v ≡ h

module _ {U : Type 0} (url : UrlCrate U) (json : SerdeJson) (base64 : Base64)
    (outside : Outside U) where
  -- The calls under the guard: a connection is to the URL resolved and has the header of the credential,
  -- a frame is that of the terminal's size, and the mode of the terminal is left alone.
  abbrev pub IsAllowed : ClientConfig → RunCall U → Type 0
  IsAllowed config enable = ⊥
  IsAllowed config disable = ⊥
  IsAllowed config (connect u header) =
      (resolve_ws_url url config.connect ≡ ok u)
      × (header ≡ basic_auth_header base64 config.credential)
  IsAllowed config (send_frame frame) =
      (size : Resize) × (outside.size ≡ some size) × (encode_client json (resize size) ≡ ok frame)
  IsAllowed config (stdout c) = Unit {0}

  abbrev pub IsOrderly : ClientConfig → Ran U → Type 0
  IsOrderly config ran =
      ((e : Error) × (outside.enable_raw_mode ≡ err e) × (ran.calls ≡ enable ∷ []))
      ⊎ ((calls : List (RunCall U)) × (ran.calls ≡ enable ∷ calls ++ disable ∷ [])
          × All (IsAllowed config) calls)

  module _ (lawful : IsOutside outside) (config : ClientConfig) where
    abbrev Fine : Ran U → Type 0
    Fine ran = All (IsAllowed config) ran.calls

    on_stdout-Fine : (cs : List Call) → All (IsAllowed config) (on_stdout cs)
    on_stdout-Fine [] = tt
    on_stdout-Fine (c ∷ cs) = (tt, on_stdout-Fine cs)

    prints-Fine : (did : Did (Unit {0})) → Fine (prints url json base64 outside did)
    unfolding prints
    prints-Fine did = on_stdout-Fine did.calls

    after_send-Fine :
        (frame : Bytes) (r : Result (Unit {0}))
        → IsAllowed config (send_frame frame)
        → Fine (after_send url json base64 outside frame r)
    unfolding after_send
    after_send-Fine frame (err e) h = (h, tt)
    after_send-Fine frame (ok u) h = (h, prints-Fine (read_loop outside.arrivals))

    first_frame-Fine :
        (size : Resize) (r : Result Bytes)
        → outside.size ≡ some size
        → encode_client json (resize size) ≡ r
        → Fine (first_frame url json base64 outside r)
    unfolding first_frame
    first_frame-Fine size (err e) h k = tt
    first_frame-Fine size (ok frame) h k = after_send-Fine frame (outside.send frame) (size, h, k)

    first_size-Fine :
        (o : Option Resize) → outside.size ≡ o → Fine (first_size url json base64 outside o)
    unfolding first_size
    first_size-Fine none h = prints-Fine (read_loop outside.arrivals)
    first_size-Fine (some size) h = first_frame-Fine size (encode_client json (resize size)) h refl

    after_connect-Fine :
        (u : U) (header : Option Bytes) (r : Result (Unit {0}))
        → IsAllowed config (connect u header)
        → Fine (after_connect url json base64 outside u header r)
    unfolding after_connect
    after_connect-Fine u header (err e) h = (h, tt)
    after_connect-Fine u header (ok c) h = (h, first_size-Fine outside.size refl)

    parsed_same : (o v : Option Bytes) → parsed url json base64 outside o ≡ ok v → v ≡ o
    unfolding parsed
    parsed_same none v h = cc
    parsed_same (some header) v h = kept (outside.parse_header header) refl h
      where
        kept :
            (r : Result Bytes)
            → outside.parse_header header ≡ r
            → (elim r [ err e ↦ err e | ok t ↦ ok (some t) ]) ≡ ok v
            → v ≡ some header
        kept (err e) k m = cc
        kept (ok t) k m = let same = lawful.keeps header t k in cc

    with_header-Fine :
        (u : U) (r : Result (Option Bytes))
        → resolve_ws_url url config.connect ≡ ok u
        → parsed url json base64 outside (basic_auth_header base64 config.credential) ≡ r
        → Fine (with_header url json base64 outside u r)
    unfolding with_header
    with_header-Fine u (err e) h k = tt
    with_header-Fine u (ok header) h k =
        after_connect-Fine u header (outside.connect_async u header)
          (h, parsed_same (basic_auth_header base64 config.credential) header k)

    with_request-Fine :
        (u : U) (r : Result (Unit {0}))
        → resolve_ws_url url config.connect ≡ ok u
        → Fine (with_request url json base64 outside u config r)
    unfolding with_request
    with_request-Fine u (err e) h = tt
    with_request-Fine u (ok request) h = with_header-Fine u _ h refl

    with_url-Fine :
        (r : Result U)
        → resolve_ws_url url config.connect ≡ r
        → Fine (with_url url json base64 outside config r)
    unfolding with_url
    with_url-Fine (err e) h = tt
    with_url-Fine (ok u) h = with_request-Fine u (outside.into_client_request u) h

    guarded-IsOrderly :
        (r : Result (Unit {0})) (body : Ran U)
        → outside.enable_raw_mode ≡ r
        → Fine body
        → IsOrderly config (guarded url json base64 outside r body)
    unfolding guarded
    guarded-IsOrderly (err e) body k h = inl (e, k, refl)
    guarded-IsOrderly (ok on) body k h = inr (body.calls, refl, h)

    -- On every path, whichever call fails, raw mode is switched off again as the last call if it was
    -- switched on, and not touched between; the client connects to no URL but the one that was resolved,
    -- with the header of its credential and no other, and the only frame it sends first is its size.
    pub run-IsOrderly : IsOrderly config (run url json base64 outside config)
    unfolding run
    run-IsOrderly =
        guarded-IsOrderly outside.enable_raw_mode _ refl
          (with_url-Fine (resolve_ws_url url config.connect) refl)
