-- ===== src/Auth/Tests.antt =====
-- A run of the sessions table (src/auth.ts): signing in, a purge and a request.
use musdash.Prelude.{◌+◌, ◌≡◌, refl, String, Option, some, List, [], ◌∷◌}
use musdash.Auth.Sessions.{resolve_session}
use musdash.Auth.Sessions.Events.{SessionEvent, creates, resolves, purges, clock_after, granted}
use musdash.Auth.Sessions.Granted.{sessions_after, promised, resolve_session-promised}

abbrev email_of_all : String → Option String
email_of_all id = some "a@b.c"

abbrev signed_in : List SessionEvent
signed_in = resolves 10 "s1" ∷ purges 5 ∷ creates 0 "s1" "csrf" "u1" ∷ []

resolve_session-promised_example :
    (resolve_session email_of_all "s1"
      (clock_after signed_in + 100)
      (sessions_after email_of_all signed_in)).0
    ≡ promised email_of_all (clock_after signed_in + 100) (granted signed_in "s1")
resolve_session-promised_example =
    resolve_session-promised email_of_all signed_in 100 "s1" refl refl
