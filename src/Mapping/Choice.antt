-- ===== src/Mapping/Choice.antt =====
-- app/services/matching.py: which candidate a listing is mapped to.
use wax_watch_api.Prelude.{
  ◌==◌, ◌&&◌, any, ℕ, ◌≤◌, ◌≡◌, some, Bool, true, false, List, ◌∷◌, keep, map, length,
}
use wax_watch_api.Prelude.Text.{Text}
use wax_watch_api.Models.{Listing, WatchRelease}
use wax_watch_api.Environment.{Environment}
use wax_watch_api.Session.{Outcome, ok, raised}
use wax_watch_api.Mapping.Tokens.{tokenize}
use wax_watch_api.Session.Ensures.{Ensures}
use wax_watch_api.Mapping.Order.{is_near}
use wax_watch_api.Mapping.{
  ReleaseCandidate, CandidateScore, is_confident, score_candidate, extract_listing_artist,
  candidates_of,
}

-- The user watches the candidate's release.
abbrev pub is_watch : ℕ → ℕ → WatchRelease → Bool
is_watch user_id release_id r =
    (r.user_id == user_id && r.is_active) && r.discogs_release_id == release_id

abbrev Watched : ℕ → List WatchRelease → ReleaseCandidate → Type 0
Watched user_id rs c = any (is_watch user_id c.discogs_release_id) rs ≡ true

-- The listing is mapped to the best score, which is confident.
record Decided (threshold : ℕ) (ss : List CandidateScore) (l' : Listing) : Type 0 where
  best : CandidateScore
  rest : List CandidateScore
  scores_eq : ss ≡ best ∷ rest
  confident : is_confident threshold best rest ≡ true
  release_eq : l'.discogs_release_id ≡ some best.candidate.discogs_release_id

abbrev changed_of : Outcome (Listing × Bool) → Bool
changed_of (ok (l, b)) = b
changed_of (raised e) = false

abbrev pub enriched_of : Listing → Outcome (Listing × Bool) → Listing
enriched_of k (ok (l, b)) = l
enriched_of k (raised e) = k

module _ (env : Environment) (threshold : ℕ) (l : Listing) where
  -- The scores of the user's active watches.
  abbrev scores_of : ℕ → List WatchRelease → List CandidateScore
  scores_of user_id rs =
      map
        (score_candidate env (tokenize env.unicode (some l.title))
          (tokenize env.unicode (extract_listing_artist env l.raw)))
        (candidates_of user_id rs)

  -- The release of a watch of the user, whose score is high enough, and the only one that is not
  -- below it by the margin.
  pub record ClearMatch (user_id : ℕ) (rs : List WatchRelease) (l' : Listing) : Type 0 where
    pub score : CandidateScore
    pub release_eq : l'.discogs_release_id ≡ some score.candidate.discogs_release_id
    pub is_watched : any (is_watch user_id score.candidate.discogs_release_id) rs ≡ true
    pub scored :
        score
        ≡ score_candidate env
            (tokenize env.unicode (some l.title))
            (tokenize env.unicode (extract_listing_artist env l.raw))
            score.candidate
    pub high : threshold ≤ score.confidence
    pub only : length (keep (is_near score) (scores_of user_id rs)) ≡ 1
