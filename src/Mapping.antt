-- ===== src/Mapping.antt =====
-- app/services/matching.py: the Discogs release of a listing, found among the user's watched
-- releases. Where the program computes with floats, these are exact fractions, and a confidence is
-- a count of ten-thousandths, rounded half up.
pub mod Tokens
pub mod Order
pub mod Choice
pub mod Artist
mod Examples
use wax_watch_api.Prelude.{
  ℕ, suc, ◌+◌, ◌-◌, ◌*◌, ◌/◌, ◌==◌, Option, none, some, Bool, true, false, not, ◌&&◌, List, [], ◌∷◌,
  ◌++◌, map, keep, take, length, is_some, get_or, leb, if◌then◌else◌,
}
use wax_watch_api.Prelude.Text.{Text, codes, nonempty, text_eq, text_key, strip, truthy_text}
use wax_watch_api.Prelude.Int.{pos}
use wax_watch_api.Prelude.Dict.{Dict, get, put}
use wax_watch_api.Prelude.Sort.{sort_by}
use wax_watch_api.Json.{
  Json, null, boolean, number, text, arr, obj, nil, cons, to_items, to_fields, fields, unit,
}
use wax_watch_api.Models.{Listing, WatchRelease}
use wax_watch_api.Environment.{Environment}
use wax_watch_api.Session.{
  World, Action, Outcome, ok, raised, type_error, lift, pure, gets, modify, ◌>>=◌, ◌>>◌,
  option_case,
}
use wax_watch_api.Paging.{Stamp, order_by}
use wax_watch_api.Ingest.Listings.{revise_rows}
use wax_watch_api.Mapping.Tokens.{tokenize, meets, normalize_title_tokens}

pub record ReleaseCandidate : Type 0 where
  pub discogs_release_id : ℕ
  pub discogs_master_id : Option ℕ
  pub title : Text
  pub artist : Option Text

-- A fraction.
pub record Overlap : Type 0 where
  pub num : ℕ
  pub den : ℕ

pub record CandidateScore : Type 0 where
  pub candidate : ReleaseCandidate
  pub confidence : ℕ
  pub title_overlap : ℕ
  pub artist_overlap : ℕ

-- `_DEFAULT_CONFIDENCE_THRESHOLD` and `_MIN_MARGIN`
abbrev pub default_confidence_threshold : ℕ
default_confidence_threshold = 8200

abbrev pub min_margin : ℕ
min_margin = 1000

-- `_coverage_similarity`
unfoldable pub coverage_similarity : (reference observed : List Text) → Overlap
unfolding meets
coverage_similarity [] observed = record { num = 0; den = 1 }
coverage_similarity (t ∷ ts) [] = record { num = 0; den = 1 }
coverage_similarity (t ∷ ts) (o ∷ os) = record {
  num = length (meets (t ∷ ts) (o ∷ os));
  den = length (t ∷ ts);
}

-- `round(x, 4)`
abbrev round4 : Overlap → ℕ
round4 o = (2 * unit * o.num + o.den) / (2 * o.den)

-- `round(0.8 * title + 0.2 * artist, 4)`
abbrev pub confidence_of : (title artist : Overlap) → ℕ
confidence_of t a =
    (2 * (8000 * t.num * a.den + 2000 * a.num * t.den) + t.den * a.den) / (2 * (t.den * a.den))

-- `sorted(scores, key=..., reverse=True)`, which keeps the order of equal scores
abbrev pub scores_before : CandidateScore → CandidateScore → Bool
scores_before s t = leb t.confidence s.confidence

unfoldable pub sort_scores : List CandidateScore → List CandidateScore
unfolding sort_by
sort_scores = sort_by scores_before

abbrev pub second_confidence : List CandidateScore → ℕ
second_confidence [] = 0
second_confidence (s ∷ ss) = s.confidence

-- The best score is high enough, and far enough from the second.
unfoldable pub is_confident : ℕ → CandidateScore → List CandidateScore → Bool
is_confident threshold best rest =
    leb threshold best.confidence && leb min_margin (best.confidence - second_confidence rest)

abbrev texts : List Text → Json
texts ts = arr (to_items (map text ts))

abbrev whole : ℕ → Json
whole n = number (pos (unit * n))

abbrev whole_or_null : Option ℕ → Json
whole_or_null none = null
whole_or_null (some n) = whole n

abbrev with_decision : Json → Json → Outcome Json
with_decision (obj fs) decision =
    ok (obj (to_fields (put (codes "discogs_mapping") decision (fields fs))))
with_decision _ decision = raised type_error

abbrev stored : Dict Text Json → Outcome Json → Outcome (Dict Text Json)
stored raw (ok m) = ok (put (codes "matching") m raw)
stored raw (raised e) = raised e

-- `raw_payload`: the decision under `matching`, which must hold a dictionary if it is there
unfoldable pub raw_payload : Option (Dict Text Json) → Json → Outcome (Dict Text Json)
unfolding get put
raw_payload raw decision =
    let d = get_or raw [] in
    stored d (with_decision (get_or (get (codes "matching") d) (obj (to_fields []))) decision)

abbrev pub mapped : Bool → CandidateScore → Dict Text Json → Listing → Listing
mapped matched best raw l = record l {
  discogs_release_id =
      if matched then some best.candidate.discogs_release_id else l.discogs_release_id;
  discogs_master_id = if matched then best.candidate.discogs_master_id else l.discogs_master_id;
  raw = some raw;
}

unfoldable pub write_mapping : ℕ → (Listing → Listing) → Action (Unit {0})
unfolding revise_rows
write_mapping id f =
    modify (λ w. record w { db = record w.db { listings = revise_rows id f w.listings } })

abbrev pub candidates_of : ℕ → List WatchRelease → List ReleaseCandidate
candidates_of user_id rs =
    map
      (λ (r : WatchRelease). record {
        discogs_release_id = r.discogs_release_id;
        discogs_master_id = r.discogs_master_id;
        title = r.title;
        artist = r.artist;
      })
      (keep (λ (r : WatchRelease). r.user_id == user_id && r.is_active) rs)

module _ (env : Environment) where
  unfoldable pub score_candidate :
      (listing_title_tokens listing_artist_tokens : List Text) → ReleaseCandidate → CandidateScore
  unfolding tokenize coverage_similarity
  score_candidate title_tokens artist_tokens c =
      let title = coverage_similarity (tokenize env.unicode (some c.title)) title_tokens in
      let artist = coverage_similarity (tokenize env.unicode c.artist) artist_tokens in
      record {
        candidate = c;
        confidence = confidence_of title artist;
        title_overlap = round4 title;
        artist_overlap = round4 artist;
      }

  unfoldable pub score_release_candidates :
      Text → Option Text → List ReleaseCandidate → List CandidateScore
  unfolding score_candidate sort_scores tokenize
  score_release_candidates title artist cs =
      sort_scores
        (map (score_candidate (tokenize env.unicode (some title)) (tokenize env.unicode artist)) cs)

  abbrev stripped : Option Json → Option Text
  stripped (some (text s)) =
      if nonempty (strip env.unicode s) then some (strip env.unicode s) else none
  stripped _ = none

  abbrev first_artist : Option Json → Option Text
  first_artist (some (arr (cons (obj fs) vs))) = stripped (get (codes "name") (fields fs))
  first_artist (some (arr (cons v vs))) = stripped (some v)
  first_artist _ = none

  -- `_extract_listing_artist`
  unfoldable pub extract_listing_artist : Option (Dict Text Json) → Option Text
  unfolding get strip
  extract_listing_artist none = none
  extract_listing_artist (some raw) = elim (stripped (get (codes "artist") raw)) [
    | some a ↦ some a
    | none ↦ first_artist (get (codes "artists") raw)
  ]

  -- `decision_payload`
  unfoldable pub decision_payload : Text → Option Text → ℕ → CandidateScore → ℕ → Bool → Json
  unfolding normalize_title_tokens
  decision_payload title artist threshold best margin matched = obj (
      to_fields (
        (codes "title_tokens", texts (normalize_title_tokens env.unicode title))
        ∷ (codes "artist_tokens", texts (normalize_title_tokens env.unicode (get_or artist [])))
        ∷ (
          codes "top_candidate",
          obj (
              to_fields (
                (codes "discogs_release_id", whole best.candidate.discogs_release_id)
                ∷ (codes "discogs_master_id", whole_or_null best.candidate.discogs_master_id)
                ∷ (codes "confidence", number (pos best.confidence))
                ∷ (codes "title_overlap", number (pos best.title_overlap))
                ∷ (codes "artist_overlap", number (pos best.artist_overlap))
                ∷ (codes "margin", number (pos margin))
                ∷ [])),
        )
        ∷ (codes "threshold", number (pos threshold))
        ∷ (codes "matched", boolean matched)
        ∷ []))

  -- The listing as it is then, and whether its mapping changed.
  unfoldable pub decide : ℕ → Listing → List CandidateScore → Action (Listing × Bool)
  unfolding is_confident decision_payload raw_payload write_mapping extract_listing_artist
  decide threshold l [] = pure (l, false)
  decide threshold l (best ∷ rest) = do
    let matched = is_confident threshold best rest
    let margin = best.confidence - second_confidence rest
    raw ← lift (
        raw_payload l.raw
          (decision_payload l.title (extract_listing_artist l.raw) threshold best margin matched))
    write_mapping l.id (mapped matched best raw)
    pure (mapped matched best raw l, matched)

  unfoldable pub enrich_listing_mapping : ℕ → ℕ → Listing → Action (Listing × Bool)
  unfolding score_release_candidates extract_listing_artist decide
  enrich_listing_mapping threshold user_id l =
      if is_some l.discogs_release_id then pure (l, false) else (do
        candidates ← gets (λ w. candidates_of user_id w.releases)
        decide threshold l
            (score_release_candidates l.title (extract_listing_artist l.raw) candidates))

  unfoldable pub enrich_all : ℕ → ℕ → List Listing → Action ℕ
  unfolding enrich_listing_mapping
  enrich_all threshold user_id [] = pure 0
  enrich_all threshold user_id (l ∷ ls) = do
    (enriched, changed) ← enrich_listing_mapping threshold user_id l
    more ← enrich_all threshold user_id ls
    pure (if changed then suc more else more)

  -- Listings seen at one time come in the order of their identifiers.
  unfoldable pub enrich_unmapped_listings_for_user : (threshold user_id limit : ℕ) → Action ℕ
  unfolding enrich_all order_by
  enrich_unmapped_listings_for_user threshold user_id limit = do
    listings ← gets (λ w. take limit (
        order_by (λ (l : Listing). (l.last_seen_at, l.id))
          (keep (λ (l : Listing). not (is_some l.discogs_release_id)) w.listings)))
    enrich_all threshold user_id listings
