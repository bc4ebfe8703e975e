-- ===== src/Auth/Views.antt =====
-- The views of src/common/auth/views.py that put a token into the signed cookie and take it out. What
-- the serializer makes of a request, and what a browser keeps of a cookie, stand outside.
pub mod Session
use mathlib.Core.List.{List, [], ◌∷◌}
use sta_generation_service.Prelude.{ℕ, String, Option, none, some}
use sta_generation_service.Auth.Keys.{KeyCache, Provider}
use sta_generation_service.Auth.Tokens.{
  Attempt, gives, value_error, key_error, Settings, Claims, Jose, decode,
}

-- What a response does to the cookie `cookie_name`.
pub data CookieChange : Type 0 where
  untouched : CookieChange
  set_signed : (token : String) → CookieChange
  deleted : CookieChange

-- A response, the ValidationError of a serializer, or a KeyError of the token's handler.
pub data Posted : Type 0 where
  response : (status : ℕ) → (text : String) → CookieChange → Posted
  validation_error : Posted
  fails : Posted

-- The `except` of CookiefyTokenView.post and what follows.
unfoldable pub placed : String → Attempt Claims → Posted
placed token (gives claims) = response 200 "Token was placed in the cookie." (set_signed token)
placed token (value_error text) = response 400 text untouched
placed token key_error = fails

-- CookiefyTokenView.post, with the token that the serializer found valid.
module _ {C : Type 0} (settings : Settings) (jose : Jose) (cache : KeyCache C)
    (provider : Provider) where
  unfoldable pub cookiefy : Option String → C → Posted × C
  unfolding decode placed
  cookiefy none c = (validation_error, c)
  cookiefy (some token) c =
      let (claims, c') = decode settings jose cache provider token c in (placed token claims, c')

-- FlushCookieTokenView.post
abbrev pub flush : Posted
flush = response 200 "Token was flushed from cookie." deleted
