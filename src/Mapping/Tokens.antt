-- ===== src/Mapping/Tokens.antt =====
-- app/services/matching.py: the tokens of a title or of an artist, as sets without repetitions.
use wax_watch_api.Prelude.{
  ℕ, ◌==◌, Option, none, some, Bool, true, false, not, ◌&&◌, ◌||◌, List, [], ◌∷◌, any, keep, leb,
  ltb, if◌then◌else◌,
}
use wax_watch_api.Prelude.Sort.{sort_by}
use wax_watch_api.Prelude.Text.{Text, codes, text_eq, Unicode, each}
use wax_watch_api.Prelude.Text.Words.{split}

-- `_STOP_WORDS`
abbrev stop_words : List Text
stop_words =
    codes "a"
    ∷ codes "an"
    ∷ codes "and"
    ∷ codes "ep"
    ∷ codes "feat"
    ∷ codes "featuring"
    ∷ codes "ft"
    ∷ codes "lp"
    ∷ codes "mix"
    ∷ codes "record"
    ∷ codes "remaster"
    ∷ codes "stereo"
    ∷ codes "the"
    ∷ codes "vinyl"
    ∷ []

abbrev pub has : Text → List Text → Bool
has t = any (text_eq t)

unfoldable pub distinct : List Text → List Text
unfolding text_eq
distinct [] = []
distinct (t ∷ ts) = let rest = distinct ts in if has t rest then rest else t ∷ rest

-- `_TOKEN_RE`
abbrev is_token_char : ℕ → Bool
is_token_char c = (leb b'a' c && leb c b'z') || (leb b'0' c && leb c b'9')

-- What the sets have in common, from the first.
unfoldable pub meets : List Text → List Text → List Text
unfolding text_eq
meets ts os = keep (λ t. has t os) ts

-- `_tokenize`
unfoldable pub tokenize : Unicode → Option Text → List Text
unfolding distinct split text_eq
tokenize u none = []
tokenize u (some value) = distinct (
    keep (λ t. not (has t stop_words))
      (split u.is_space (each (λ c. if is_token_char c then c else b' ') (u.casefold value))))

-- The order of texts by their code points.
unfoldable pub precedes : Text → Text → Bool
precedes [] t = true
precedes (a ∷ s) [] = false
precedes (a ∷ s) (b ∷ t) = ltb a b || (a == b && precedes s t)

unfoldable pub normalize_title_tokens : Unicode → Text → List Text
unfolding tokenize sort_by precedes
normalize_title_tokens u title = sort_by precedes (tokenize u (some title))
