-- ===== src/Resolver/Tests.antt =====
-- Resolution on a small database.
use plant_ops.Prelude.{
  codes, ◌==◌, ◌≡◌, ◌↔◌, refl, true, false, none, some, [], ◌∷◌, includes, sort, distinct,
}
use plant_ops.Scope.{is_within}
use plant_ops.Grants.{assemble_grants, covers_path, minimize_paths}
use plant_ops.Resolver.{Tables, SubjectRef, user, resolve}
use plant_ops.Resolver.Access.{HasAccess, covers_path-resolve}

abbrev tables : Tables
tables = record {
  role_bindings =
      record {
        client_id = codes "c";
        user_id = some (codes "u");
        service_account_id = none;
        role_id = codes "r";
        scope_node_id = codes "s";
        expires_at = some 100;
      }
      ∷ [];
  scope_nodes =
      record { id = codes "s"; client_id = codes "c"; path = codes "n_s" }
      ∷ record { id = codes "g"; client_id = codes "c"; path = codes "n_s.n_g" }
      ∷ [];
  role_permissions = record { role_id = codes "r"; permission_id = codes "p" } ∷ [];
  permissions =
      record {
        id = codes "p";
        application_id = codes "a";
        key = codes "dc.create";
        is_active = true;
      }
      ∷ [];
  applications = record { id = codes "a"; is_active = true } ∷ [];
  client_applications =
      record { client_id = codes "c"; application_id = codes "a"; enabled = true } ∷ [];
}

abbrev subject : SubjectRef
subject = record { client_id = codes "c"; type = user; id = codes "u" }

granted_below :
    covers_path (resolve 99 subject none tables) (codes "dc.create") (codes "n_s.n_g") ≡ true
unfolding resolve covers_path includes assemble_grants minimize_paths sort distinct is_within ◌==◌
granted_below = refl

-- The binding lapses at its expiry.
lapsed : covers_path (resolve 100 subject none tables) (codes "dc.create") (codes "n_s.n_g") ≡ false
unfolding resolve covers_path includes assemble_grants minimize_paths sort distinct is_within ◌==◌
lapsed = refl

covers_path-resolve_example :
    (covers_path (resolve 99 subject none tables) (codes "dc.create") (codes "n_s.n_g") ≡ true)
    ↔ HasAccess 99 subject none (codes "dc.create") (codes "n_s.n_g") tables
covers_path-resolve_example =
    covers_path-resolve 99 subject none (codes "dc.create") (codes "n_s.n_g") tables
