-- ===== src/Refresh/Answer.antt =====
-- What a client that is answered with a token pair holds, whatever the cache did.
use plant_ops.Prelude.{
  ℕ, Text, true, ◌≡◌, ◌≢◌, inl, inr, refl, sym, ap, ◌∙◌, [], ◌++◌, Option, none, some, Option-cases,
}
use mathlib.Core.Option.{some-injective}
use plant_ops.Refresh.Token.{format_refresh_token, parse_refresh_token}
use plant_ops.Refresh.Rotation.{
  Session, RefreshOutcome, rotated, replay, stale, reuse, invalid, Rotated, rotate, rotate_row,
  hash_is,
}
use plant_ops.Refresh.Service.{
  ReplayStore, Database, TokenPair, elect, rotate_refresh_token, refresh, refresh_parsed, concluded,
  token_pair, granted, published_by,
}
use plant_ops.Refresh.Safety.{is_grant, IsLive, IsPresentable, rotate_row-Granted}
use plant_ops.Refresh.Rows.{session_of, rotate-found, rotate-missing}

module _ {Token State : Type 0} (issue : Text → Text → Text → Token) (store : ReplayStore State)
    (hash : Text → Text) where
  -- The presented token named a session that was live and presentable; the token handed out names
  -- the same session, and its secret is the one that the session's row now holds the hash of.
  abbrev pub IsAnswer : ℕ → ℕ → Text → Database → TokenPair Token → Database → Type 0
  IsAnswer now grace token db pair after =
      (id : Text) × (presented : Text) × (successor : Text) × (s : Session) × (s' : Session)
      × (parse_refresh_token token ≡ some (id, presented))
      × (pair.refresh_token ≡ format_refresh_token id successor)
      × (session_of id db.sessions ≡ some s)
      × (session_of id after.sessions ≡ some s')
      × IsPresentable now grace (hash presented) s
      × IsLive now s'
      × (hash_is s'.refresh_token_hash (hash successor) ≡ true)
      × (s'.expires_at ≡ s.expires_at)
      × (after.published ≡ db.published)

  answered :
      (o : RefreshOutcome) (subject : Option (Text × Text)) (id successor : Text)
      (pair : TokenPair Token)
      → token_pair issue (granted o subject) id successor ≡ some pair
      → (is_grant o ≡ true)
        × (pair.refresh_token ≡ format_refresh_token id successor)
        × (published_by o id ≡ [])
        × (subject ≢ none)
  answered rotated none id successor pair h = absurd (cc)
  answered replay none id successor pair h = absurd (cc)
  answered rotated (some (client, user)) id successor pair h =
      (refl, ap TokenPair.refresh_token (sym (some-injective _ _ h)), refl, λ e. cc)
  answered replay (some (client, user)) id successor pair h =
      (refl, ap TokenPair.refresh_token (sym (some-injective _ _ h)), refl, λ e. cc)
  answered stale subject id successor pair h = absurd (cc)
  answered reuse subject id successor pair h = absurd (cc)
  answered invalid subject id successor pair h = absurd (cc)

  rotated-IsAnswer :
      (now grace : ℕ) (token id presented successor : Text) (db : Database) (r : Rotated)
      (pair : TokenPair Token)
      → parse_refresh_token token ≡ some (id, presented)
      → r ≡ rotate now grace id (hash presented) (hash successor) db.sessions
      → (concluded issue id successor r db).0 ≡ some pair
      → IsAnswer now grace token db pair (concluded issue id successor r db).1
  rotated-IsAnswer now grace token id presented successor db r pair p q h =
      let (g, f, none_published, with_subject) = answered r.outcome r.subject id successor pair h in
      elim (Option-cases (session_of id db.sessions)) [
        | inl n ↦ absurd (
            with_subject (
              ap Rotated.subject
                (q ∙ rotate-missing now grace id (hash presented) (hash successor) db.sessions n)))
        | inr (s, n) ↦
            let here = rotate_row now grace (hash presented) (hash successor) s in
            let (o, found, sub) =
              rotate-found now grace id (hash presented) (hash successor) db.sessions s n in
            let (was, holds, live, expiry, c, u) =
              rotate_row-Granted now grace (hash presented) (hash successor) s
                (ap is_grant (sym o ∙ ap Rotated.outcome (sym q)) ∙ g) in
            (
              id,
              presented,
              successor,
              s,
              here.session,
              p,
              f,
              n,
              ap (λ r. session_of id r.sessions) q ∙ found,
              was,
              live,
              holds,
              expiry,
              ap (λ l. l ++ db.published) none_published,
            )
      ]

  parsed-IsAnswer :
      (now grace : ℕ) (candidate token : Text) (parsed : Option (Text × Text)) (cache : State)
      (db : Database) (pair : TokenPair Token)
      → parse_refresh_token token ≡ parsed
      → (refresh_parsed issue store hash now grace candidate parsed cache db).0 ≡ some pair
      → IsAnswer now grace token db pair
          (refresh_parsed issue store hash now grace candidate parsed cache db).2
  unfolding refresh_parsed rotate_refresh_token
  parsed-IsAnswer now grace candidate token none cache db pair p h = absurd (cc)
  parsed-IsAnswer now grace candidate token (some (id, presented)) cache db pair p h =
      rotated-IsAnswer now grace token id presented
        (elect store hash grace presented candidate cache).0 db _ pair p refl h

  -- If `refresh` answers with a token pair, whatever the replay cache does: the presented token
  -- parses to a session and a secret; the session's row was neither revoked nor expired, and the
  -- hash of the secret was its current one or its previous one within the grace window; the token
  -- handed out is that of the same session with a secret whose hash is now the row's current one;
  -- the row is still live, with its expiry unchanged; and nothing is published as revoked.
  pub refresh-IsAnswer :
      (now grace : ℕ) (candidate token : Text) (cache : State) (db : Database)
      (pair : TokenPair Token)
      → (refresh issue store hash now grace candidate token cache db).0 ≡ some pair
      → IsAnswer now grace token db pair
          (refresh issue store hash now grace candidate token cache db).2
  unfolding refresh
  refresh-IsAnswer now grace candidate token cache db pair =
      parsed-IsAnswer now grace candidate token (parse_refresh_token token) cache db pair refl
