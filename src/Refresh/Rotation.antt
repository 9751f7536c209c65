-- ===== src/Refresh/Rotation.antt =====
-- The rotation decision, one statement over the session rows. A null comparison is not true, so a
-- missing hash matches nothing; `rotated_at > now - grace` is written without subtraction.
use plant_ops.Prelude.{
  ℕ, ◌+◌, Text, ◌==◌, Bool, true, false, ◌&&◌, ◌||◌, List, [], ◌∷◌, Option, none, some, leb, ltb,
  if◌then◌else◌,
}

pub record Session : Type 0 where
  pub client_id : Text
  pub user_id : Option Text
  pub refresh_token_hash : Option Text
  pub previous_refresh_token_hash : Option Text
  pub rotated_at : Option ℕ
  pub revoked_at : Option ℕ
  pub expires_at : ℕ

pub data RefreshOutcome : Type 0 where
  rotated replay stale reuse invalid : RefreshOutcome

pub data AuditAction : Type 0 where
  refresh_rotated reuse_detected : AuditAction

pub record Rotation : Type 0 where
  pub session : Session
  pub outcome : RefreshOutcome
  pub audited : List AuditAction

abbrev pub hash_is : Option Text → Text → Bool
hash_is none h = false
hash_is (some x) h = x == h

abbrev pub is_set : Option ℕ → Bool
is_set none = false
is_set (some t) = true

-- `rotated_at > now() - grace`
abbrev pub in_grace : Option ℕ → ℕ → ℕ → Bool
in_grace none now grace = false
in_grace (some at) now grace = ltb now (at + grace)

-- `coalesce(revoked_at, now())`
abbrev pub coalesce : Option ℕ → ℕ → Option ℕ
coalesce none now = some now
coalesce (some t) now = some t

unfoldable pub rotate_row : ℕ → ℕ → Text → Text → Session → Rotation
rotate_row now grace_seconds presented_hash new_hash s =
    if is_set s.revoked_at || leb s.expires_at now
    then record { session = s; outcome = invalid; audited = [] }
    else if hash_is s.refresh_token_hash presented_hash
    then record {
      session = record s {
        previous_refresh_token_hash = s.refresh_token_hash;
        refresh_token_hash = some new_hash;
        rotated_at = some now;
      };
      outcome = rotated;
      audited = refresh_rotated ∷ [];
    }
    else if hash_is s.previous_refresh_token_hash presented_hash
        && in_grace s.rotated_at now grace_seconds
    then record {
      session = s;
      outcome = if hash_is s.refresh_token_hash new_hash then replay else stale;
      audited = [];
    }
    else record {
      session = record s { revoked_at = coalesce s.revoked_at now };
      outcome = reuse;
      audited = reuse_detected ∷ [];
    }

abbrev pub Sessions : Type 0
Sessions = List (Text × Session)

-- What the function returns, and the rows as it leaves them; no subject with `invalid` for no row.
pub record Rotated : Type 0 where
  pub sessions : Sessions
  pub outcome : RefreshOutcome
  pub subject : Option (Text × Text)
  pub audited : List AuditAction

abbrev pub rotated_at_head : Text → Sessions → Text → Text → Rotation → Rotated
rotated_at_head id rest client user r = record {
  sessions = (id, r.session) ∷ rest;
  outcome = r.outcome;
  subject = some (client, user);
  audited = r.audited;
}

abbrev pub rotated_later : Text → Session → Rotated → Rotated
rotated_later id s r = record r { sessions = (id, s) ∷ r.sessions }

-- `s.user_id is not null`
abbrev pub for_user {ℓ} : {A : Type ℓ} → Option Text → A → (Text → A) → A
for_user none otherwise k = otherwise
for_user (some user) otherwise k = k user

-- The row that `where s.id = _session_id and s.user_id is not null` finds.
unfoldable pub rotate : ℕ → ℕ → Text → Text → Text → Sessions → Rotated
unfolding rotate_row
rotate now grace id presented new [] = record {
  sessions = [];
  outcome = invalid;
  subject = none;
  audited = [];
}
rotate now grace id presented new ((j, s) ∷ rest) =
    let later = rotated_later j s (rotate now grace id presented new rest) in
    let here = rotate_row now grace presented new s in
    if j == id
    then for_user s.user_id later (λ user. rotated_at_head j rest s.client_id user here)
    else later
