-- ===== src/Server/Api.antt =====
-- The handlers of the HTTP API (server.go: Handler, the handle methods, leaseCredFromQuery,
-- writeJSON). What encoding/json makes of a request's body is an argument, and so is the text of an
-- error.
pub mod Handlers
pub mod Exec
mod Examples
use teploy_sandbox.Prelude.{
  ℕ, ◌+◌, ◌-◌, ◌*◌, Bool, ◌&&◌, Option, none, some, List, [], ◌∷◌, ltb, leb, if◌then◌else◌, Text,
  codes, is_empty, Table, ℤ, two_pow_64, Result, Error,
}
use teploy_sandbox.Run.Types.{Run, Registry, LeaseState, LeaseCredential, WarmState, WarmManifest}
use teploy_sandbox.Run.Manager.Request.{CreateRequest, Config}
use teploy_sandbox.Run.Manager.World.{World, Answers}
use teploy_sandbox.Run.Manager.Snapshots.{ImageAnswers}
use teploy_sandbox.Run.Manager.Warm.{CacheAnswers}
use teploy_sandbox.Server.Problem.{Problem, problem, write_error, status_of}

-- What a body decodes to: an empty body is io.EOF.
pub data Decoded (A : Type 0) : Type 0 where
  eof malformed : Decoded A
  decoded : A → Decoded A

pub record ExecRequest : Type 0 where
  pub cmd : Text
  pub cwd : Text
  pub timeout_sec : ℤ
  pub env : Table Text
  pub owner : Text
  pub generation : ℕ

pub record LeaseRequest : Type 0 where
  pub owner : Text
  pub generation : ℕ
  pub ttl_sec : ℤ

-- What an exec is run with, and how it ends: what it wrote to which stream, its exit code, whether it
-- timed out, and the text of an error.
pub record Command : Type 0 where
  pub cmd : Text
  pub cwd : Text
  pub env : Table Text
  pub timeout : ℤ

pub record Ended : Type 0 where
  pub output : List (Text × Text)
  pub exit_code : ℤ
  pub timed_out : Bool
  pub failure : Option Text

-- What the server's collaborators answer, and what other goroutines do to the registry while the
-- runtime works. `sends` says of the number of writes to a stream before one whether it succeeds,
-- and `exit_text` is the JSON of an exit.
pub record Outside : Type 0 where
  pub config : Config
  pub answers : Answers
  pub images : ImageAnswers
  pub cache : CacheAnswers
  pub error_text : Error → Text
  pub now : ℕ
  pub later : ℕ
  pub ulid : Text
  pub others : Registry → Registry
  pub during_copy : World → World
  pub writes_file : Text → Text → Text → Result (Unit {0})
  pub reads_file : Text → Text → Result Text
  pub runs : Text → Command → Ended
  pub can_stream : Bool
  pub sends : ℕ → Bool
  pub exit_text : ℤ → Bool → Text

-- The manager's world, and the snapshot images.
pub record State : Type 0 where
  pub world : World
  pub images : Text → Bool

pub data Payload : Type 0 where
  nothing health_body : Payload
  problem_body : Problem → Payload
  created_run : Run → Payload
  run_list : Registry → Payload
  image_body : Text → Payload
  lease_body : LeaseState → Payload
  warm_body : WarmState → Payload
  manifest_body : WarmManifest → Payload
  file_body : Text → Payload
  stream : List Text → Payload

pub record Response : Type 0 where
  pub status : ℕ
  pub payload : Payload

-- writeProblem.
unfoldable pub refuse : Problem → Response
refuse p = record { status = p.status; payload = problem_body p }

-- writeError.
unfoldable pub refuse_error : Outside → Error → Response
unfolding refuse write_error
refuse_error o e = refuse (write_error e (o.error_text e))

abbrev pub body_must_be_json : Text
body_must_be_json = codes "Body must be JSON."

-- strconv.ParseUint(raw, 10, 64).
unfoldable pub digits_value : ℕ → Text → Option ℕ
digits_value acc [] = some acc
digits_value acc (c ∷ rest) =
    let later = digits_value (acc * 10 + (c - b'0')) rest in
    if leb b'0' c && leb c b'9' then later else none

unfoldable pub parse_uint : Text → Option ℕ
unfolding digits_value
parse_uint raw = if is_empty raw then none else elim (digits_value 0 raw) [
  | none ↦ none
  | some n ↦ if ltb n two_pow_64 then some n else none
]

-- leaseCredFromQuery: the query's `owner` and `generation`.
unfoldable pub lease_cred_from_query : Text → Text → Option LeaseCredential
unfolding parse_uint
lease_cred_from_query owner raw =
    if is_empty raw
    then some (record { owner = owner; generation = 0 })
    else elim (parse_uint raw) [
      | none ↦ none
      | some generation ↦ some (record { owner = owner; generation = generation })
    ]
