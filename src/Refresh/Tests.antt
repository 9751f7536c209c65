-- ===== src/Refresh/Tests.antt =====
-- Witnesses and runs for the refresh.
use plant_ops.Prelude.{
  ne_of_eq_false, Text, codes, ◌==◌, eq_refl, Bool, true, false, ◌≡◌, inl, inr, refl, ap, arith,
  List, [], ◌∷◌, ◌++◌, Option, none, some, All, if◌then◌else◌, Option-cases,
}
use mathlib.Core.List.{Memᴰ}
use mathlib.Core.Option.{some-injective}
use plant_ops.Refresh.Token.{parse_refresh_token, format_refresh_token, is_uuid, is_secret}
use plant_ops.Refresh.Token.Laws.{parse-format}
use plant_ops.Refresh.Rotation.{Session, rotated, replay, reuse, invalid, rotate_row}
use plant_ops.Refresh.Service.{ReplayStore, Database, elect, refresh}
use plant_ops.Refresh.Safety.{is_grant, rotate_row-two_generations}
use plant_ops.Refresh.Answer.{IsAnswer, refresh-IsAnswer}
use plant_ops.Refresh.Race.{IsWriteOnce, Race, Race-converges}

abbrev sid : Text
sid = codes "0b0e1f6c-5a7d-4c1b-9d2e-3f4a5b6c7d8e"

abbrev first_secret : Text
first_secret = codes "AAAAAAAAAAAAAAAA_a"

abbrev second_secret : Text
second_secret = codes "BBBBBBBBBBBBBBBB-b"

abbrev third_secret : Text
third_secret = codes "CCCCCCCCCCCCCCCCcc"

-- A stand-in for SHA-256.
abbrev sha : Text → Text
sha s = codes "h" ++ s

abbrev fresh : Session
fresh = record {
  client_id = codes "c1";
  user_id = some (codes "u1");
  refresh_token_hash = some (sha first_secret);
  previous_refresh_token_hash = none;
  rotated_at = none;
  revoked_at = none;
  expires_at = 1000;
}

parse-format_example :
    parse_refresh_token (format_refresh_token sid first_secret) ≡ some (sid, first_secret)
unfolding is_uuid is_secret format_refresh_token
parse-format_example = parse-format sid first_secret refl refl (omega arith)

rotate_row-two_generations_example :
    ((rotate_row 30 10
        (sha first_secret)
        (sha sid)
        (rotate_row 20 10
          (sha second_secret)
          (sha third_secret)
          (rotate_row 10 10 (sha first_secret) (sha second_secret) fresh).session).session).outcome
      ≡ reuse)
    × ((rotate_row 40 10
          (sha third_secret)
          (sha sid)
          (rotate_row 30 10
            (sha first_secret)
            (sha sid)
            (rotate_row 20 10
              (sha second_secret)
              (sha third_secret)
              (rotate_row 10 10
                (sha first_secret)
                (sha second_secret)
                fresh).session).session).session).outcome
        ≡ invalid)
unfolding rotate_row ◌==◌
rotate_row-two_generations_example =
    rotate_row-two_generations fresh 10 10 20 30 40 (sha first_secret) (sha second_secret)
      (sha third_secret) (sha sid) (sha third_secret) (sha sid) (ne_of_eq_false _ _ refl)
      (ne_of_eq_false _ _ refl) refl refl (refl, omega arith)

-- A store that keeps the first value of each key for ever.
abbrev Entries : Type 0
Entries = List (Text × Text)

abbrev read : Text → Entries → Option Text
read k [] = none
read k ((j, v) ∷ rest) = if j == k then some v else read k rest

abbrev written_by : Option Text → Text → Text → Entries → Option Bool × Entries
written_by none k v c = (some true, (k, v) ∷ c)
written_by (some x) k v c = (some false, c)

abbrev entries_store : ReplayStore Entries
entries_store = record {
  set_nx = λ k v ttl c. written_by (read k c) k v c;
  get = λ k c. some (read k c);
}

entries-IsWriteOnce : IsWriteOnce entries_store
entries-IsWriteOnce = record {
  written = λ k v ttl c h. elim (Option-cases (read k c)) [
    | inl n ↦ rw n (ap some (rw (eq_refl k) refl))
    | inr (x, n) ↦ let q : some false ≡ some true = rw n at h in absurd (cc)
  ];
  refused = λ k v ttl c h. elim (Option-cases (read k c)) [
    | inl n ↦ let q : some true ≡ some false = rw n at h in absurd (cc)
    | inr (x, n) ↦ (x, ap some n, rw n (ap some n))
  ];
  kept = λ k v x ttl c h. let q : read k c ≡ some x = some-injective _ _ h in rw q refl;
  answers = λ k v ttl c. elim (Option-cases (read k c)) [
    | inl n ↦ inl (rw n refl)
    | inr (x, n) ↦ inr (rw n refl)
  ];
}

abbrev database : Database
database = record { sessions = (sid, fresh) ∷ []; audit = []; published = [] }

abbrev issue : Text → Text → Text → Text
issue user client id = user ++ client ++ id

refresh-IsAnswer_example :
    IsAnswer issue entries_store sha 10 10
      (format_refresh_token sid first_secret)
      database
      (record {
        access_token = issue (codes "u1") (codes "c1") sid;
        refresh_token = format_refresh_token sid second_secret;
      })
      (refresh issue entries_store sha 10 10 second_secret
        (format_refresh_token sid first_secret)
        []
        database).2
unfolding refresh ◌==◌
refresh-IsAnswer_example =
    refresh-IsAnswer issue entries_store sha 10 10 second_secret
      (format_refresh_token sid first_secret) [] database _ refl

abbrev raced_row : Session
raced_row = record fresh {
  refresh_token_hash = some (sha second_secret);
  previous_refresh_token_hash = some (sha first_secret);
  rotated_at = some 12;
}

abbrev raced_cache : Entries
raced_cache = (codes "refresh-replay:" ++ sha first_secret, second_secret) ∷ []

-- Two requests: the candidate of the later one loses the election.
raced :
    Race entries_store entries-IsWriteOnce sha 10 first_secret 10 fresh [] raced_row raced_cache
      (second_secret ∷ second_secret ∷ [])
      (replay ∷ rotated ∷ [])
unfolding elect rotate_row ◌==◌
raced = Race.rotates 14 second_secret (omega arith) (omega arith) (Memᴰ.tail (Memᴰ.head refl)) (
    Race.rotates 12 second_secret (omega arith) (omega arith) (Memᴰ.head refl)
      (Race.elects third_secret (Race.elects second_secret Race.start)))

Race-converges_example :
    All (λ o. is_grant o ≡ true) (replay ∷ rotated ∷ [])
    × ((p q : Text)
        → Memᴰ p (second_secret ∷ second_secret ∷ [])
        → Memᴰ q (second_secret ∷ second_secret ∷ [])
        → p ≡ q)
unfolding ◌==◌
Race-converges_example =
    Race-converges entries_store entries-IsWriteOnce sha 10 first_secret 10 fresh refl refl
      (omega arith) [] raced_row raced_cache (second_secret ∷ second_secret ∷ [])
      (replay ∷ rotated ∷ []) raced
