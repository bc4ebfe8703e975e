-- ===== src/Wsgi/Log.antt =====
-- What the close of a request logs.
use Prim.Native.String.{[], ◌∷◌}
use mathlib.Core.List.{[], ◌∷◌}
use text.Mathlib.TextLemmas.{nil-append, cons-append}
use sta_generation_service.Prelude.{ℕ, String, false, none, some, code, ◌==◌, ◌≡◌, refl, arith}
use sta_generation_service.Text.{◌<>◌}
use sta_generation_service.Text.Split.{has_code}
use sta_generation_service.Wsgi.{
  plain, log_request, split_space, logs, closes, returns, raises, try_log, close,
}

split_space-none : (s : String) → has_code b' ' s ≡ false → split_space s ≡ none
unfolding split_space
split_space-none [] h = refl
split_space-none (c ∷ s) h =
    let here : (code c == b' ') ≡ false = ground arith in
    let later : has_code b' ' s ≡ false = ground arith in
    rw (split_space, split_space-none s later, here) refl

split_space-some :
    (s phrase : String)
    → has_code b' ' s ≡ false
    → split_space (s <> (" " ∷ phrase)) ≡ some (s, phrase)
unfolding split_space
split_space-some [] phrase h = rw (nil-append, split_space) refl
split_space-some (c ∷ s) phrase h =
    let here : (code c == b' ') ≡ false = ground arith in
    let later : has_code b' ' s ≡ false = ground arith in
    rw (cons-append, split_space, split_space-some s phrase later, here) refl

-- A request with a status line of a code, a space and a reason phrase is logged once, with this code
-- and this phrase, and then closed. Without a space in the status, or without a status, nothing is
-- logged and the request is closed all the same, before the exception goes on.
close_lem :
    (address requestline : String) (bytes_sent : ℕ) (status : String)
    → has_code b' ' status ≡ false
    → ((phrase : String)
        → close address requestline bytes_sent (some (status <> (" " ∷ phrase))) ≡ (
          logs (log_request address requestline (plain status) bytes_sent phrase) ∷ closes ∷ [],
          returns,
        ))
      × (close address requestline bytes_sent (some status) ≡ (closes ∷ [], raises))
      × (close address requestline bytes_sent none ≡ (closes ∷ [], raises))
unfolding close try_log
close_lem address requestline bytes_sent status free = (
  λ phrase. rw (close, try_log, split_space-some status phrase free) refl,
  rw (close, try_log, split_space-none status free) refl,
  refl,
)
