-- ===== src/Web/Flashes.antt =====
-- `setFlash` and `takeFlash` of internal/web/auth.go: a message that survives a redirect in a cookie.
--
-- The base64 encoding is a parameter, and so is its decoding, which may fail.
pub mod Taken
use quicksurvey.Base.{
  ℕ, ◌==◌, if◌then◌else◌, Bool, false, Option, none, some, List, [], ◌∷◌, Text, codes, is_empty,
}
use quicksurvey.Web.{Request, Server, Cookie, find_cookie}
use quicksurvey.Web.Sessions.{cookie, cookie_name}

abbrev pub flash_cookie : Text
flash_cookie = codes "qs_flash"

-- 5 minutes.
abbrev pub flash_ttl : ℕ
flash_ttl = 300_000_000_000

-- `flash`, with the message as text.
pub record Notice : Type 0 where
  pub message : Text
  pub is_error : Bool

abbrev pub no_notice : Notice
no_notice = record { message = []; is_error = false }

abbrev notice_of : Option Text → Notice
notice_of none = no_notice
notice_of (some []) = no_notice
notice_of (some (kind ∷ message)) = record { message = message; is_error = kind == b'e' }

module _ (s : Server) where
  unfoldable pub set_flash : (encode : Text → Text) → Notice → Cookie
  set_flash encode f =
      cookie s flash_cookie (encode ((if f.is_error then b'e' else b'i') ∷ f.message)) flash_ttl

  -- The message, and the cookies that are set; `now` is what `flashNow` put on the request.
  unfoldable pub take_flash :
      (decode : Text → Option Text) → (now : Option Notice) → Request → Notice × List Cookie
  take_flash decode (some f) req = (f, [])
  take_flash decode none req = elim (find_cookie (cookie_name s flash_cookie) req.cookies) [
    | none ↦ (no_notice, [])
    | some value ↦ if is_empty value then (no_notice, []) else (
      notice_of (decode value),
      record { name = cookie_name s flash_cookie; value = []; secure = false; ttl = 0 } ∷ [],
    )
  ]
