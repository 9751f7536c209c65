-- ===== src/ScopeTree/Rows.antt =====
-- The rows of scopes.service.ts (apps/iam-api/src/scopes), and what its queries select.
use plant_ops.Prelude.{
  ℕ, Text, ◌==◌, Bool, true, false, ◌&&◌, List, [], ◌∷◌, Option, none, some, map, any, filter, find,
  if◌then◌else◌,
}
use plant_ops.Scope.{is_within}
use plant_ops.Resolver.{RoleBinding, SubjectRef, SubjectType}

pub data ScopeNodeKind : Type 0 where
  group plant department gate : ScopeNodeKind

pub record ScopeNodeRow : Type 0 where
  pub id : Text
  pub client_id : Text
  pub parent_id : Option Text
  pub kind : ScopeNodeKind
  pub name : Text
  pub path : Text

pub data ScopeAudit : Type 0 where
  created : Text → Text → Option Text → ScopeAudit
  renamed : Text → Text → Text → ScopeAudit
  moved : Text → Text → Text → ℕ → ℕ → ScopeAudit
  deleted : Text → Text → ScopeAudit

-- The tables that the service works on, and what it has recorded and published.
pub record ScopeState : Type 0 where
  pub nodes : List ScopeNodeRow
  pub bindings : List RoleBinding
  pub audit : List ScopeAudit
  pub published : List (List SubjectRef)

pub data ScopeConflict : Type 0 where
  second_root foreign_parent too_deep beneath_itself has_children has_bindings : ScopeConflict

pub data Result (A : Type 0) : Type 0 where
  ok : A → Result A
  conflict : ScopeConflict → Result A

infixl 5 ◌>>=◌
abbrev pub ◌>>=◌ : {A B : Type 0} → Result A → (A → Result B) → Result B
ok a >>= f = f a
conflict e >>= f = conflict e

abbrev pub column_is_null : Option Text → Bool
column_is_null none = true
column_is_null (some x) = false

-- `findRow`
unfoldable pub is_row : Text → Text → ScopeNodeRow → Bool
is_row cid id n = n.client_id == cid && n.id == id

unfoldable pub find_row : Text → Text → List ScopeNodeRow → Option ScopeNodeRow
unfolding is_row
find_row cid id nodes = find (is_row cid id) nodes

-- `client_id = $1 and path <@ $2`
unfoldable pub is_under : Text → Text → ScopeNodeRow → Bool
is_under cid path n = n.client_id == cid && is_within n.path path

abbrev pub subject_of : RoleBinding → SubjectRef
subject_of rb = elim rb.user_id [
  | some id ↦ record { client_id = rb.client_id; type = SubjectType.user; id = id }
  | none ↦ record {
    client_id = rb.client_id;
    type = SubjectType.service;
    id = elim rb.service_account_id [ some id ↦ id | none ↦ [] ];
  }
]

abbrev pub same_type : SubjectType → SubjectType → Bool
same_type SubjectType.user SubjectType.user = true
same_type SubjectType.service SubjectType.service = true
same_type _ _ = false

abbrev pub same_subject : SubjectRef → SubjectRef → Bool
same_subject a b = a.client_id == b.client_id && same_type a.type b.type && a.id == b.id

-- `select distinct`
unfoldable pub distinct_subjects : List SubjectRef → List SubjectRef
distinct_subjects [] = []
distinct_subjects (s ∷ ss) =
    let rest = distinct_subjects ss in if any (same_subject s) rest then rest else s ∷ rest

-- The binding is anchored at a node of the subtree.
abbrev pub anchored_under : Text → Text → List ScopeNodeRow → RoleBinding → Bool
anchored_under cid path nodes rb =
    rb.client_id == cid && any (λ n. n.id == rb.scope_node_id && is_within n.path path) nodes

-- `subjectsUnder`
unfoldable pub subjects_under : Text → Text → ScopeState → List SubjectRef
unfolding distinct_subjects
subjects_under cid path st =
    distinct_subjects (map subject_of (filter (anchored_under cid path st.nodes) st.bindings))
