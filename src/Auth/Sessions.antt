-- ===== src/Auth/Sessions.antt =====
-- Sessions in SQLite (src/auth.ts). The table is the list of its rows, whose id is the primary key;
-- times are milliseconds, which order as the ISO texts do. Tokens are given: randomToken draws them.
-- safeEqual compares two texts in constant time, and here just compares them.
pub mod Granted
pub mod Events
mod Rows
use musdash.Prelude.{
  ℕ, ◌+◌, ◌*◌, String, Bool, true, false, ◌&&◌, not, Option, none, some, List, [], ◌∷◌, ◌++◌,
  if◌then◌else◌, str_eq, ltb, map_option, is_some,
}

abbrev pub session_days : ℕ
session_days = 30

pub record Session : Type 0 where
  pub id : String
  pub user_id : String
  pub csrf_token : String
  pub expires_at : ℕ
  pub created_at : ℕ

pub record SessionUser : Type 0 where
  pub id : String
  pub email : String
  pub session_id : String
  pub csrf_token : String

abbrev pub Sessions : Type 0
Sessions = List Session

-- SELECT … WHERE id = ?
unfoldable pub find_session : String → Sessions → Option Session
find_session id [] = none
find_session id (s ∷ t) = if str_eq s.id id then some s else find_session id t

-- The row that createSession inserts.
abbrev pub new_session : String → String → String → ℕ → Session
new_session id csrf_token user_id now = record {
  id = id;
  user_id = user_id;
  csrf_token = csrf_token;
  expires_at = now + session_days * 86400 * 1000;
  created_at = now;
}

-- A conflict of the primary key throws and inserts nothing.
unfoldable pub insert_session : Option Session → Session → Sessions → Sessions
insert_session none s t = t ++ (s ∷ [])
insert_session (some other) s t = t

unfoldable pub create_session : String → String → String → ℕ → Sessions → Sessions
unfolding insert_session
create_session id csrf_token user_id now t =
    insert_session (find_session id t) (new_session id csrf_token user_id now) t

unfoldable pub destroy_session : String → Sessions → Sessions
destroy_session id [] = []
destroy_session id (s ∷ t) =
    let rest = destroy_session id t in if str_eq s.id id then rest else s ∷ rest

-- DELETE … WHERE expires_at < ?
unfoldable pub purge_expired_sessions : ℕ → Sessions → Sessions
purge_expired_sessions now [] = []
purge_expired_sessions now (s ∷ t) =
    let rest = purge_expired_sessions now t in if ltb s.expires_at now then rest else s ∷ rest

module _ (email_of : String → Option String) where
  -- The row joined with its user.
  abbrev pub session_user : Session → Option SessionUser
  session_user s =
      map_option
        (λ email. record {
          id = s.user_id;
          email = email;
          session_id = s.id;
          csrf_token = s.csrf_token;
        })
        (email_of s.user_id)

  abbrev joined : Option Session → Option (Session × SessionUser)
  joined none = none
  joined (some s) = map_option (λ u. (s, u)) (session_user s)

  unfoldable pub resolve_row :
      String → ℕ → Sessions → Option (Session × SessionUser) → Option SessionUser × Sessions
  resolve_row id now t none = (none, t)
  resolve_row id now t (some (s, u)) =
      if ltb s.expires_at now then (none, destroy_session id t) else (some u, t)

  -- A missing or empty cookie resolves to nothing.
  unfoldable pub resolve_session : String → ℕ → Sessions → Option SessionUser × Sessions
  unfolding resolve_row find_session
  resolve_session id now t =
      if str_eq id "" then (none, t) else resolve_row id now t (joined (find_session id t))

unfoldable pub verify_csrf : SessionUser → Option String → Bool
verify_csrf session none = false
verify_csrf session (some submitted) =
    if str_eq submitted "" then false else str_eq session.csrf_token submitted
