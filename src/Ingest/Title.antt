-- ===== src/Ingest/Title.antt =====
-- app/services/ingest.py: `normalize_title`.
use wax_watch_api.Prelude.{ℕ, ◌≡◌, true, [], ◌∷◌, ◌++◌, if◌then◌else◌}
use wax_watch_api.Prelude.Text.{Text, Unicode}
use wax_watch_api.Prelude.Text.Words.{join, split, split-IsWord, split-join}

abbrev pub space : ℕ
space = 32

module _ (u : Unicode) where
  -- `"".join(ch.lower() if ch.isalnum() else " " for ch in s)`
  unfoldable pub spaced : Text → Text
  spaced [] = []
  spaced (c ∷ s) = (if u.is_alnum c then u.lower_char c else space ∷ []) ++ spaced s

  unfoldable pub normalize_title : Text → Text
  unfolding spaced join split
  normalize_title s = join space (split u.is_space (spaced s))

  -- Provided that the blank is a space character: the words of a normalized title are those of
  -- the title with its punctuation blanked.
  split-normalize_title :
      (s : Text)
      → u.is_space space ≡ true
      → split u.is_space (normalize_title s) ≡ split u.is_space (spaced s)
  unfolding normalize_title
  split-normalize_title s blank =
      split-join u.is_space space _ blank (split-IsWord u.is_space (spaced s))
