-- ===== src/Server/Problem/Examples.antt =====
-- The check of the bearer token, and the answers to errors, at concrete requests.
use teploy_sandbox.Prelude.{◌≡◌, refl, none, codes, text_eq, busy}
use teploy_sandbox.Server.Problem.{auth, write_error}

passes : auth (codes "secret") (codes "Bearer secret") ≡ none
unfolding auth text_eq
passes = refl

conflict : (write_error busy (codes "busy")).kind ≡ codes "https://neutron.dev/errors/conflict"
unfolding write_error
conflict = refl
