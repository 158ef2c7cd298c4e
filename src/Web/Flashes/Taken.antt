-- ===== src/Web/Flashes/Taken.antt =====
-- What a flash of internal/web/auth.go is on the page after a redirect.
use quicksurvey.Base.{
  ℕ, ◌≡◌, Bool-cases, inl, inr, false, Option, none, some, [], ◌∷◌, Text, is_empty, arith,
}
use quicksurvey.Web.{Request, Server, find_cookie}
use quicksurvey.Web.Flashes.{Notice, set_flash, take_flash}

-- Where what is decoded is what was encoded, and no text is encoded as the empty one, a request that
-- carries the cookie of a message gets that message, with its kind, and the cookie is deleted; a
-- message for the page itself comes before it, and leaves the cookie for the next page.
pub take_flash-set_flash :
    (s : Server) (encode : Text → Text) (decode : Text → Option Text)
    → ((t : Text) → decode (encode t) ≡ some t)
    → ((c : ℕ) (t : Text) → is_empty (encode (c ∷ t)) ≡ false)
    → (f g : Notice) (req : Request)
    → let c = set_flash s encode f in
      find_cookie c.name req.cookies ≡ some c.value
      → (take_flash s decode none req
          ≡ (f, record { name = c.name; value = []; secure = false; ttl = 0 } ∷ []))
        × (take_flash s decode (some g) req ≡ (g, []))
unfolding set_flash take_flash
take_flash-set_flash s encode decode decoded nonempty f g req sent = elim (Bool-cases f.is_error) [
  | inl bad ↦
      (ground (arith, sent, bad, decoded (b'e' ∷ f.message), nonempty b'e' f.message), ground arith)
  | inr good ↦ (
    ground (arith, sent, good, decoded (b'i' ∷ f.message), nonempty b'i' f.message),
    ground arith,
  )
]
