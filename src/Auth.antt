-- ===== src/Auth.antt =====
-- pkg/auth/auth.go: the browser sessions in memory, and the checks of a request that use them. Times are
-- nanoseconds; the random token and CSRF value are arguments.
pub mod Expiry
mod Tests
use tmuxatlas.Common.{
  ℕ, ◌+◌, Bool, true, false, not, ◌&&◌, ◌||◌, List, [], ◌∷◌, Option, none, some, Text, same_text,
  text_key, Dict, get, put, remove, keep, ltb, if◌then◌else◌,
}

pub record Session : Type 0 where
  pub expiry : ℕ
  pub csrf : Text

pub record SessionManager : Type 0 where
  pub sessions : Dict Text Session
  pub ttl : ℕ

abbrev pub new_session_manager : ℕ → SessionManager
new_session_manager ttl = record { sessions = []; ttl = ttl }

unfoldable pub create : ℕ → Text → Text → SessionManager → SessionManager
create now token csrf sm = record sm {
  sessions = put token (record { expiry = now + sm.ttl; csrf = csrf }) sm.sessions;
}

abbrev pub validate_as : Option Session → ℕ → Text → SessionManager → Bool × SessionManager
validate_as none now token sm = (false, record sm { sessions = remove token sm.sessions })
validate_as (some s) now token sm =
    if ltb s.expiry now
    then (false, record sm { sessions = remove token sm.sessions })
    else (true, record sm { sessions = put token (record s { expiry = now + sm.ttl }) sm.sessions })

unfoldable pub validate : ℕ → Text → SessionManager → Bool × SessionManager
validate now token sm = validate_as (get token sm.sessions) now token sm

abbrev pub csrf_as : Option Session → ℕ → Option Text
csrf_as none now = none
csrf_as (some s) now = if ltb s.expiry now then none else some s.csrf

unfoldable pub csrf_of : ℕ → Text → SessionManager → Option Text
csrf_of now token sm = csrf_as (get token sm.sessions) now

unfoldable pub revoke : Text → SessionManager → SessionManager
revoke token sm = record sm { sessions = remove token sm.sessions }

unfoldable pub cleanup : ℕ → SessionManager → SessionManager
cleanup now sm = record sm { sessions = keep (λ token s. not (ltb s.expiry now)) sm.sessions }

-- Middleware: `cookie` is none where the request has no session cookie. The result says whether the handler
-- runs.
unfoldable pub middleware : ℕ → Bool → Option Text → SessionManager → Bool × SessionManager
unfolding validate
middleware now unix_socket none sm = (unix_socket, sm)
middleware now unix_socket (some token) sm =
    if unix_socket then (true, sm) else validate now token sm

abbrev pub csrf_matches : Option Text → Text → Bool
csrf_matches none provided = false
csrf_matches (some expected) provided = same_text provided expected

-- CSRFMiddleware
unfoldable pub csrf_middleware : ℕ → Option Text → Text → SessionManager → Bool
unfolding csrf_of
csrf_middleware now none provided sm = false
csrf_middleware now (some token) provided sm = csrf_matches (csrf_of now token sm) provided

-- The calls that change the sessions, each a locked section.
pub data Call : Type 0 where
  creates : Text → Text → Call
  validates revokes : Text → Call
  cleans : Call

unfoldable pub handle : ℕ → Call → SessionManager → SessionManager
unfolding create validate revoke cleanup
handle now (creates token csrf) sm = create now token csrf sm
handle now (validates token) sm = (validate now token sm).1
handle now (revokes token) sm = revoke token sm
handle now cleans sm = cleanup now sm

unfoldable pub run : List (ℕ × Call) → SessionManager → SessionManager
run [] sm = sm
run ((now, call) ∷ calls) sm = run calls (handle now call sm)
