-- ===== src/User/Responses.antt =====
-- What the HTTP handlers of internal/modules/user/adapter/http/handler.go answer.
use Prim.Native.String.len
use Prim.Native.String.{len}
use text.Mathlib.TextPositions.{slice-append_right, len-append, starts_with-append, len_utf8-pos}
use game_production.Common.{
  ◌<◌, String, string_key, concat, ◌≡◌, ◌≢◌, ◌↔◌, refl, true, Result, ok, err, arith,
}
use game_production.Float.{Float64}
use game_production.User.Defs.{Database}
use game_production.User.Accounts.{Libraries, UserUseCase, LoginAnswer, login}
use game_production.User.Handlers.{Web, LoginRequest, handle_login, bare_token}

module _ {F S : Type 0} (float : Float64 F) (lib : Libraries F S) (db : Database S)
    (uc : UserUseCase) (web : Web S) where
  -- The login page answers 200 exactly if the limiter allows the request, the body is read and the use
  -- case logs the user in.
  pub handle_login_ok_iff :
      (body : String) (s : S)
      → ((handle_login float lib db uc web body s).0.status ≡ 200) ↔ (
          ((web.allow_login s).0 ≡ true)
          × ((q : LoginRequest) × (a : LoginAnswer) × (web.bind_login body ≡ ok q)
              × ((login float lib db uc q.username q.password (web.allow_login s).1).0 ≡ ok a)))
  unfolding handle_login
  handle_login_ok_iff body s = (
    λ h. go h (web.bind_login body) refl,
    λ (allowed, (q, a, bound, logged)). ground (arith, allowed, bound, logged),
  )
    where
      logs_in :
          (q : LoginRequest)
          → (handle_login float lib db uc web body s).0.status ≡ 200
          → web.bind_login body ≡ ok q
          → (r : Result LoginAnswer)
          → (login float lib db uc q.username q.password (web.allow_login s).1).0 ≡ r
          → (a : LoginAnswer) × ((login float lib db uc q.username q.password
                (web.allow_login s).1).0
              ≡ ok a)
      logs_in q h bound (ok a) e = (a, e)
      logs_in q h bound (err x) e = absurd (ground (arith, h, bound, e))

      go :
          (handle_login float lib db uc web body s).0.status ≡ 200
          → (b : Result LoginRequest) → web.bind_login body ≡ b
          → ((web.allow_login s).0 ≡ true)
            × ((q : LoginRequest) × (a : LoginAnswer) × (web.bind_login body ≡ ok q)
                × ((login float lib db uc q.username q.password (web.allow_login s).1).0 ≡ ok a))
      go h (ok q) bound =
          let (a, logged) = logs_in q h bound _ refl in (ground (arith, h), (q, a, bound, logged))
      go h (err x) bound = absurd (ground (arith, h, bound))

len-pos : (t : String) → t ≢ "" → 0 < len t
len-pos String.[] named = absurd (named refl)
len-pos (String.◌∷◌ c t) named =
    let (k, wide) = len_utf8-pos c in rw (len.cons c t, wide) (omega arith)

-- A token that is not empty is read back from behind the word Bearer.
pub bare_token-bearer : (token : String) → token ≢ "" → bare_token (concat "Bearer " token) ≡ token
unfolding bare_token
bare_token-bearer token named =
    let more = len-pos token named in
    rw (len-append "Bearer " token, starts_with-append "Bearer " token)
      (ground (arith, more, slice-append_right "Bearer " token))
