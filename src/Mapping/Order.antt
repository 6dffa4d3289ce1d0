-- ===== src/Mapping/Order.antt =====
-- app/services/matching.py: sorted scores.
use wax_watch_api.Prelude.{
  ℕ, ◌+◌, ◌≤◌, ◌≡◌, refl, Bool, true, List, [], ◌∷◌, All, keep, length, ltb, leb, arith,
}
use wax_watch_api.Prelude.Sort.{IsSortedBy, sort_by-IsSortedBy}
use wax_watch_api.Mapping.{CandidateScore, min_margin, scores_before, sort_scores, is_confident}

pub sort_scores-IsSorted : (ss : List CandidateScore) → IsSortedBy scores_before (sort_scores ss)
unfolding sort_scores
sort_scores-IsSorted =
    sort_by-IsSortedBy scores_before (λ s t h. ground (arith, h))
      (λ s t u h k. ground (arith, h, k))

-- `s` is above `best`, or less than the margin below it.
abbrev pub is_near : CandidateScore → CandidateScore → Bool
is_near best s = ltb best.confidence (s.confidence + min_margin)

none_near :
    (best : CandidateScore) (n : ℕ) (ss : List CandidateScore)
    → n + min_margin ≤ best.confidence
    → All (λ (t : CandidateScore). leb t.confidence n ≡ true) ss
    → length (keep (is_near best) ss) ≡ 0
none_near best n [] h k = refl
none_near best n (t ∷ ts) h (k, ks) = ground (arith, h, k, none_near best n ts h ks)

-- The best of sorted scores that is far from the second is far from all of them.
pub alone_near :
    (threshold : ℕ) (best : CandidateScore) (rest : List CandidateScore)
    → IsSortedBy scores_before (best ∷ rest)
    → is_confident threshold best rest ≡ true
    → (threshold ≤ best.confidence) × (length (keep (is_near best) (best ∷ rest)) ≡ 1)
unfolding is_confident
alone_near threshold best [] h c = (ground (arith, c), ground arith)
alone_near threshold best (s ∷ ss) (h, (ks, hs)) c =
    let far : s.confidence + min_margin ≤ best.confidence = ground (arith, c) in
    let all = none_near best s.confidence ss far ks in (ground (arith, c), ground (arith, far, all))
