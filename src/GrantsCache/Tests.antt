-- ===== src/GrantsCache/Tests.antt =====
-- Witnesses for the grants cache.
use plant_ops.Prelude.{
  codes, ◌==◌, true, [], ◌∷◌, none, some, ◌≡◌, refl, distinct, ◌↔◌, Text, false, includes, sort,
}
use mathlib.Core.List.{Memᴰ}
use plant_ops.Grants.{ResolvedGrants, covers_path, assemble_grants, minimize_paths}
use plant_ops.Resolver.{SubjectRef, SubjectType, Tables, scope_path_of}
use plant_ops.Scope.{is_within}
use plant_ops.GrantsCache.Checked.{Covers, check_iff}
use plant_ops.GrantsCache.{
  Cell, check, Cells, StoredCounter, StoredEntry, bump_cell, bump_many, read, write, grants_for,
}
use plant_ops.GrantsCache.Fresh.{World, Reached, grants_for-has_held}

abbrev before : ResolvedGrants
before = record {
  permissions = codes "dc.create" ∷ [];
  scopes = (codes "dc.create", codes "n_a" ∷ []) ∷ [];
}

abbrev after : ResolvedGrants
after = record { permissions = []; scopes = [] }

-- A request that resolved before a revocation writes back after it was announced.
abbrev late_write : World
late_write = record {
  truth = after;
  lapsed = [];
  cell = record {
    entry = some (StoredEntry.readable (record { grants = before; v = 0 }));
    counter = some (StoredCounter.number 1);
  };
  owed = 0;
  observed = 0 ∷ [];
  resolved = (0, before) ∷ [];
}

late_write-Reached : Reached late_write
unfolding write bump_cell read
late_write-Reached = Reached.writes 0 before true (Memᴰ.head refl) (
    Reached.bumps 0 refl (
      Reached.changes after
        (Reached.resolves 0 (Memᴰ.head refl) (Reached.observes 0 refl (Reached.start before)))))

not_served : (grants_for none (λ application. after) true true late_write.cell).0 ≡ after
unfolding grants_for read
not_served = refl

-- A binding lapses while its grants are in the cache.
abbrev lapsed_entry : World
lapsed_entry = record {
  truth = after;
  lapsed = before ∷ [];
  cell = record {
    entry = some (StoredEntry.readable (record { grants = before; v = 0 }));
    counter = none;
  };
  owed = 0;
  observed = 0 ∷ [];
  resolved = (0, before) ∷ [];
}

lapsed_entry-Reached : Reached lapsed_entry
unfolding write read
lapsed_entry-Reached = Reached.lapses after (
    Reached.writes 0 before true (Memᴰ.head refl)
      (Reached.resolves 0 (Memᴰ.head refl) (Reached.observes 0 refl (Reached.start before))))

still_served : (grants_for none (λ application. after) true true lapsed_entry.cell).0 ≡ before
unfolding grants_for read
still_served = refl

grants_for-has_held_example :
    Memᴰ
      (grants_for none (λ application. after) true true lapsed_entry.cell).0
      (after ∷ before ∷ [])
grants_for-has_held_example = grants_for-has_held lapsed_entry true true lapsed_entry-Reached refl

abbrev subject : SubjectRef
subject = record { client_id = codes "c"; type = SubjectType.user; id = codes "u" }

abbrev cells : Cells
cells k = record { entry = none; counter = some (StoredCounter.number 4) }

-- It is one increment.
bumped_once :
    (bump_many true (subject ∷ subject ∷ []) cells (codes "perms:c:user:u")).counter
    ≡ some (StoredCounter.number 5)
unfolding bump_many ◌==◌ distinct
bumped_once = refl

-- A binding that ends at 100.
abbrev tables : Tables
tables = record {
  role_bindings =
      record {
        client_id = codes "c";
        user_id = some (codes "u");
        service_account_id = none;
        role_id = codes "r";
        scope_node_id = codes "s";
        expires_at = some 100;
      }
      ∷ [];
  scope_nodes =
      record { id = codes "s"; client_id = codes "c"; path = codes "n_a" }
      ∷ record { id = codes "g"; client_id = codes "c"; path = codes "n_a.n_g" }
      ∷ [];
  role_permissions = record { role_id = codes "r"; permission_id = codes "p" } ∷ [];
  permissions =
      record {
        id = codes "p";
        application_id = codes "a";
        key = codes "dc.create";
        is_active = true;
      }
      ∷ [];
  applications = record { id = codes "a"; is_active = true } ∷ [];
  client_applications =
      record { client_id = codes "c"; application_id = codes "a"; enabled = true } ∷ [];
}

abbrev cached_cell : Cell
cached_cell = lapsed_entry.cell

abbrev empty_cell : Cell
empty_cell = record { entry = none; counter = none }

-- The binding is over: the entry still grants, the tables do not.
by_cache_at_100 :
    (check true true 100 subject tables (codes "dc.create") (codes "g") cached_cell).0 ≡ true
unfolding check read grants_for covers_path includes is_within ◌==◌
by_cache_at_100 = refl

by_rows_at_100 :
    (check true true 100 subject tables (codes "dc.create") (codes "g") empty_cell).0 ≡ false
unfolding check read grants_for covers_path includes assemble_grants minimize_paths sort distinct
    is_within ◌==◌
by_rows_at_100 = refl

by_rows_at_99 :
    (check true true 99 subject tables (codes "dc.create") (codes "g") empty_cell).0 ≡ true
unfolding check read grants_for covers_path includes assemble_grants minimize_paths sort distinct
    is_within ◌==◌
by_rows_at_99 = refl

check_iff_example :
    ((check true true 99 subject tables (codes "dc.create") (codes "g") cached_cell).0 ≡ true) ↔ (
      (path : Text) × (scope_path_of tables.scope_nodes (codes "c") (codes "g") ≡ some path)
      × Covers true cached_cell 99 subject tables (codes "dc.create") path)
check_iff_example =
    check_iff true true cached_cell 99 subject tables (codes "dc.create") (codes "g")
