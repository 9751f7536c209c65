-- ===== src/Audit/Filter.antt =====
-- The rows of audit-query.service.ts (apps/iam-api/src/audit), and the clauses of its filter.
use plant_ops.Prelude.{
  ℕ, ◌*◌, ◌/◌, Text, codes, ◌==◌, Bool, true, false, Option, none, some, ltb, leb,
}

pub data AuditActorType : Type 0 where
  user service_account platform : AuditActorType

abbrev pub same_actor_type : AuditActorType → AuditActorType → Bool
same_actor_type user user = true
same_actor_type service_account service_account = true
same_actor_type platform platform = true
same_actor_type _ _ = false

abbrev pub actor_type_name : AuditActorType → Text
actor_type_name user = codes "user"
actor_type_name service_account = codes "service_account"
actor_type_name platform = codes "platform"

pub record AuditRow (Payload : Type 0) : Type 0 where
  pub id : Text
  pub client_id : Option Text
  pub actor_type : AuditActorType
  pub actor_id : Option Text
  pub action : Text
  pub target_type : Option Text
  pub target_id : Option Text
  pub payload : Payload
  pub created_at : ℕ

pub record AuditQuery : Type 0 where
  pub actor_id : Option Text
  pub actor_type : Option AuditActorType
  pub action : Option Text
  pub target_type : Option Text
  pub target_id : Option Text
  pub client_id : Option Text
  pub from : Option ℕ
  pub to : Option ℕ

-- A clause that is added where the query names a value, on a column that may be null.
abbrev pub column_matches : Option Text → Option Text → Bool
column_matches none column = true
column_matches (some wanted) none = false
column_matches (some wanted) (some value) = value == wanted

abbrev pub actor_type_matches : Option AuditActorType → AuditActorType → Bool
actor_type_matches none t = true
actor_type_matches (some wanted) t = same_actor_type t wanted

abbrev pub is_from : Option ℕ → ℕ → Bool
is_from none t = true
is_from (some bound) t = leb bound t

abbrev pub is_before : Option ℕ → ℕ → Bool
is_before none t = true
is_before (some bound) t = ltb t bound

pub record Cursor : Type 0 where
  pub created_at : ℕ
  pub id : Text

-- What `Date` keeps of a timestamp.
abbrev pub to_date : ℕ → ℕ
to_date t = t / 1000 * 1000
