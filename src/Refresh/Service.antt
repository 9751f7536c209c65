-- ===== src/Refresh/Service.antt =====
-- One refresh: `RefreshReplayCache.elect`, `RefreshService.elect` and `refresh`, and
-- `SessionService.rotateRefreshToken`. The store, the hash and the signer are parameters.
use plant_ops.Prelude.{
  ℕ, ◌+◌, Text, codes, Bool, true, false, List, [], ◌∷◌, ◌++◌, Option, none, some, or_default,
}
use plant_ops.Refresh.Token.{format_refresh_token, parse_refresh_token}
use plant_ops.Refresh.Rotation.{
  RefreshOutcome, rotated, replay, reuse, AuditAction, Sessions, Rotated, rotate,
}

-- The two Redis commands: `none` where the command rejects, `some false` for the nil of `SET … NX`.
pub record ReplayStore (State : Type 0) : Type 0 where
  pub set_nx : Text → Text → ℕ → State → Option Bool × State
  pub get : Text → State → Option (Option Text)

abbrev pub replay_slack_seconds : ℕ
replay_slack_seconds = 5

-- `key`
unfoldable pub replay_key : Text → Text
replay_key presented_hash = codes "refresh-replay:" ++ presented_hash

-- What `refresh` leaves behind: the session rows, the audit and the published `sid`s.
pub record Database : Type 0 where
  pub sessions : Sessions
  pub audit : List (AuditAction × Text)
  pub published : List Text

pub record TokenPair (Token : Type 0) : Type 0 where
  pub access_token : Token
  pub refresh_token : Text

module _ {State : Type 0} (store : ReplayStore State) where
  -- The answer to `SET … NX`, then that to the `GET`.
  abbrev pub elected : Option Bool → Option (Option Text) → Text → Option Text
  elected none read candidate = none
  elected (some true) read candidate = some candidate
  elected (some false) none candidate = none
  elected (some false) (some value) candidate = some (or_default value candidate)

  -- `RefreshReplayCache.elect`; `none` where it throws.
  unfoldable pub elect_in_cache : ℕ → Text → Text → State → Option Text × State
  unfolding replay_key
  elect_in_cache grace_seconds presented_hash candidate cache =
      let key = replay_key presented_hash in
      let (stored, after) =
        store.set_nx key candidate (grace_seconds + replay_slack_seconds) cache in
      (elected stored (store.get key after) candidate, after)

  -- `RefreshService.elect`: the candidate stands where the cache cannot answer.
  unfoldable pub elect : (Text → Text) → ℕ → Text → Text → State → Text × State
  unfolding elect_in_cache
  elect hash grace_seconds presented candidate cache =
      let (answer, after) = elect_in_cache grace_seconds (hash presented) candidate cache in
      (or_default answer candidate, after)

-- `rotateRefreshToken`: the rows are hashed on the way in.
unfoldable pub rotate_refresh_token :
    (Text → Text) → ℕ → ℕ → Text → Text → Text → Sessions → Rotated
unfolding rotate
rotate_refresh_token hash now grace session_id presented successor sessions =
    rotate now grace session_id (hash presented) (hash successor) sessions

abbrev pub audited_for : Text → List AuditAction → List (AuditAction × Text)
audited_for id [] = []
audited_for id (a ∷ more) = (a, id) ∷ audited_for id more

-- `publishRevocations([sid])`, on the `reuse` branch only.
abbrev pub published_by : RefreshOutcome → Text → List Text
published_by reuse id = id ∷ []
published_by _ id = []

-- The subject of a token pair, on the two outcomes that give one.
abbrev pub granted : RefreshOutcome → Option (Text × Text) → Option (Text × Text)
granted rotated subject = subject
granted replay subject = subject
granted _ subject = none

module _ {Token : Type 0} (issue_access_token : Text → Text → Text → Token) where
  abbrev pub token_pair : Option (Text × Text) → Text → Text → Option (TokenPair Token)
  token_pair none session_id successor = none
  token_pair (some (client, user)) session_id successor = some (record {
    access_token = issue_access_token user client session_id;
    refresh_token = format_refresh_token session_id successor;
  })

  abbrev pub concluded : Text → Text → Rotated → Database → Option (TokenPair Token) × Database
  concluded session_id successor r db = (
    token_pair (granted r.outcome r.subject) session_id successor,
    record {
      sessions = r.sessions;
      audit = audited_for session_id r.audited ++ db.audit;
      published = published_by r.outcome session_id ++ db.published;
    },
  )

  -- `refresh` from the parsed token on: the election, the rotation, and the answer.
  unfoldable pub refresh_parsed :
      {State : Type 0}
      → ReplayStore State
      → (Text → Text)
      → ℕ
      → ℕ
      → Text
      → Option (Text × Text)
      → State
      → Database
      → Option (TokenPair Token) × State × Database
  unfolding elect rotate_refresh_token format_refresh_token
  refresh_parsed store hash now grace candidate none cache db = (none, cache, db)
  refresh_parsed store hash now grace candidate (some (session_id, presented)) cache db =
      let (successor, after) = elect store hash grace presented candidate cache in
      let r = rotate_refresh_token hash now grace session_id presented successor db.sessions in
      let (answer, db') = concluded session_id successor r db in (answer, after, db')

  -- `refresh`, with the candidate that `mintRefreshSecret` gives; `none` is the one refusal.
  unfoldable pub refresh :
      {State : Type 0}
      → ReplayStore State
      → (Text → Text)
      → ℕ
      → ℕ
      → Text
      → Text
      → State
      → Database
      → Option (TokenPair Token) × State × Database
  unfolding parse_refresh_token refresh_parsed
  refresh store hash now grace candidate token cache db =
      refresh_parsed store hash now grace candidate (parse_refresh_token token) cache db
