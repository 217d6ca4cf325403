-- ===== src/Server/Problem.antt =====
-- The problems that the API answers with, and the check of the bearer token (server.go: Problem,
-- problem, writeError, auth).
pub mod Statuses
mod Examples
use teploy_sandbox.Prelude.{
  ℕ, Option, none, some, [], ◌∷◌, ◌++◌, ◌==◌, if◌then◌else◌, Text, codes, text_eq, Error, not_found,
  bad_request, lease_held, lease_superseded, busy, internal,
}

-- An RFC 7807 body.
pub record Problem : Type 0 where
  pub kind : Text
  pub title : Text
  pub status : ℕ
  pub detail : Text

-- `suffix, title`.
naming : ℕ → Text × Text
naming status =
    if status == 400
    then (codes "bad-request", codes "Bad Request")
    else if status == 401
    then (codes "unauthorized", codes "Unauthorized")
    else if status == 404
    then (codes "not-found", codes "Not Found")
    else if status == 409
    then (codes "conflict", codes "Conflict")
    else (codes "internal", codes "Internal Server Error")

-- problem.
unfoldable pub problem : ℕ → Text → Problem
unfolding naming
problem status detail = record {
  kind = codes "https://neutron.dev/errors/" ++ (naming status).0;
  title = (naming status).1;
  status = status;
  detail = detail;
}

-- The status that writeError chooses.
unfoldable pub status_of : Error → ℕ
status_of not_found = 404
status_of bad_request = 400
status_of lease_held = 409
status_of lease_superseded = 409
status_of busy = 409
status_of internal = 500

-- writeError, with the error's text.
unfoldable pub write_error : Error → Text → Problem
unfolding problem status_of
write_error e text = problem (status_of e) text

drop_prefix : Text → Text → Option Text
drop_prefix [] s = some s
drop_prefix (c ∷ p) [] = none
drop_prefix (c ∷ p) (d ∷ s) = if c == d then drop_prefix p s else none

-- auth: the problem that it writes, or none where the request goes on. Two tokens compare alike in
-- constant time exactly if they are the same bytes.
unfoldable pub auth : Text → Text → Option Problem
unfolding problem drop_prefix
auth token header =
    let refusal = problem 401 (codes "Missing or invalid bearer token.") in
    elim (drop_prefix (codes "Bearer ") header) [
      | none ↦ some refusal
      | some given ↦ if text_eq given token then none else some refusal
    ]
