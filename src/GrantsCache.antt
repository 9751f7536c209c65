-- ===== src/GrantsCache.antt =====
-- The versioned grants cache of apps/iam-api/src/authz/grants-cache.service.ts and the read-through
-- `grantsFor` and `check` of resolver.service.ts. A cell is what Redis holds for one subject: the entry
-- and the counter beside it. Each command comes with whether Redis carried it out in time.
pub mod Fresh
pub mod Checked
pub mod Bumped
mod Tests
use plant_ops.Prelude.{
  ℕ, ◌+◌, Text, codes, ◌==◌, Bool, true, false, not, List, [], ◌∷◌, ◌++◌, Option, none, some, ◌=?◌,
  if◌then◌else◌, distinct, map,
}
use plant_ops.Grants.{ResolvedGrants, covers_path}
use plant_ops.Resolver.{SubjectType, SubjectRef, type_name, Tables, resolve, scope_path_of}

pub record CachedGrants : Type 0 where
  pub grants : ResolvedGrants
  pub v : ℕ

-- What `JSON.parse` makes of an entry, and `Number` of a counter.
pub data StoredEntry : Type 0 where
  unreadable : StoredEntry
  readable : CachedGrants → StoredEntry

pub data StoredCounter : Type 0 where
  not_finite : StoredCounter
  number : ℕ → StoredCounter

pub record Cell : Type 0 where
  pub entry : Option StoredEntry
  pub counter : Option StoredCounter

pub record CacheRead : Type 0 where
  pub grants : Option ResolvedGrants
  pub version : Option ℕ

abbrev pub miss : CacheRead
miss = record { grants = none; version = none }

abbrev pub version_of : Option StoredCounter → Option ℕ
version_of none = some 0
version_of (some not_finite) = none
version_of (some (number n)) = some n

abbrev pub entry_at : Option StoredEntry → ℕ → Option ResolvedGrants
entry_at none version = none
entry_at (some unreadable) version = none
entry_at (some (readable cached)) version = if cached.v =? version then some cached.grants else none

abbrev pub read_at : Option StoredEntry → Option ℕ → CacheRead
read_at entry none = miss
read_at entry (some version) = record { grants = entry_at entry version; version = some version }

-- `read`
unfoldable pub read : Bool → Cell → CacheRead
read answered cell = if answered then read_at cell.entry (version_of cell.counter) else miss

-- `write`: nothing where no version was observed.
unfoldable pub write : Bool → ResolvedGrants → Option ℕ → Cell → Cell
write answered grants none cell = cell
write answered grants (some version) cell =
    if answered
    then record cell { entry = some (readable (record { grants = grants; v = version })) }
    else cell

-- `INCR` on the counter; it fails on what is not a number.
abbrev pub incremented : Option StoredCounter → Option StoredCounter
incremented none = some (number 1)
incremented (some not_finite) = some not_finite
incremented (some (number n)) = some (number (n + 1))

unfoldable pub bump_cell : Cell → Cell
bump_cell cell = record cell { counter = incremented cell.counter }

abbrev pub Cells : Type 0
Cells = Text → Cell

-- `keyFor`
unfoldable pub key_for : SubjectRef → Text
key_for subject =
    codes "perms"
    ++ codes ":"
    ++ subject.client_id
    ++ codes ":"
    ++ type_name subject.type
    ++ codes ":"
    ++ subject.id

-- The pipeline of `bumpMany`, one `INCR` for each key.
unfoldable pub bump_keys : List Text → Cells → Cells
unfolding bump_cell
bump_keys [] cells k = cells k
bump_keys (key ∷ keys) cells k =
    bump_keys keys (λ j. if j == key then bump_cell (cells j) else cells j) k

-- `bumpMany`, over the distinct keys of the subjects.
unfoldable pub bump_many : Bool → List SubjectRef → Cells → Cells
unfolding bump_keys key_for
bump_many answered subjects cells =
    if answered then bump_keys (distinct (map key_for subjects)) cells else cells

-- `grantsFor`, after the read: a hit, or the resolution written back at the version observed.
unfoldable pub grants_after :
    Option ResolvedGrants → Option ℕ → ResolvedGrants → Bool → Cell → ResolvedGrants × Cell
unfolding write
grants_after (some grants) version resolved written cell = (grants, cell)
grants_after none version resolved written cell = (resolved, write written resolved version cell)

-- `grantsFor`: a slice for one application is resolved past the cache.
unfoldable pub grants_for :
    Option Text → (Option Text → ResolvedGrants) → Bool → Bool → Cell → ResolvedGrants × Cell
unfolding read grants_after
grants_for (some application) resolve answered written cell = (resolve (some application), cell)
grants_for none resolve answered written cell =
    let cached = read answered cell in
    grants_after cached.grants cached.version (resolve none) written cell

-- The end of `check`: false for a node that is not there, without asking for the grants.
abbrev pub check_at : Option Text → Text → ResolvedGrants × Cell → Cell → Bool × Cell
check_at none permission answer cell = (false, cell)
check_at (some target_path) permission answer cell =
    (covers_path answer.0 permission target_path, answer.1)

-- `check`
unfoldable pub check : Bool → Bool → ℕ → SubjectRef → Tables → Text → Text → Cell → Bool × Cell
unfolding scope_path_of grants_for resolve
check answered written now subject t permission scope_node_id cell =
    check_at (scope_path_of t.scope_nodes subject.client_id scope_node_id) permission
      (grants_for none (λ application. resolve now subject application t) answered written cell)
      cell
