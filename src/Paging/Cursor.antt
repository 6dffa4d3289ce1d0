-- ===== src/Paging/Cursor.antt =====
-- app/api/pagination.py: cursors, and the page that a request asks for. Base64 of UTF-8 and the
-- texts of times and identifiers are parameters.
use wax_watch_api.Prelude.{
  ℕ, ◌==◌, ltb, ◌≡◌, refl, ap, ◌∙◌, Option, none, some, false, [], ◌∷◌, ◌++◌, All, if◌then◌else◌,
}
use wax_watch_api.Prelude.Text.{Text}
use wax_watch_api.Session.{http_exception, Outcome, ok, raised}
use wax_watch_api.Paging.{Stamp, Page}
use wax_watch_api.Paging.Join.{page_after}

pub record Codec : Type 0 where
  pub encode64 : Text → Text
  pub decode64 : Text → Option Text
  pub isoformat : ℕ → Text
  pub fromisoformat : Text → Option ℕ
  pub uuid_text : ℕ → Text
  pub uuid_of : Text → Option ℕ

abbrev pub prepend : ℕ → Option (Text × Text) → Option (Text × Text)
prepend x none = none
prepend x (some (a, b)) = some (x ∷ a, b)

-- `raw.split("|", maxsplit=1)`, where it has two parts
unfoldable pub split_bar : Text → Option (Text × Text)
split_bar [] = none
split_bar (x ∷ s) = let rest = prepend x (split_bar s) in if x == b'|' then some ([], s) else rest

abbrev pub invalid_cursor : Outcome Stamp
invalid_cursor = raised (http_exception 422)

abbrev pub both : Option ℕ → Option ℕ → Outcome Stamp
both (some at) (some id) = ok (at, id)
both (some at) none = invalid_cursor
both none id = invalid_cursor

module _ (c : Codec) where
  unfoldable pub encode_created_id_cursor : (created_at row_id : ℕ) → Text
  encode_created_id_cursor created_at row_id =
      c.encode64 (c.isoformat created_at ++ b'|' ∷ c.uuid_text row_id)

  abbrev pub decode_parts : Option (Text × Text) → Outcome Stamp
  decode_parts none = invalid_cursor
  decode_parts (some (a, b)) = both (c.fromisoformat a) (c.uuid_of b)

  abbrev pub decode_raw : Option Text → Outcome Stamp
  decode_raw none = invalid_cursor
  decode_raw (some raw) = decode_parts (split_bar raw)

  unfoldable pub decode_created_id_cursor : Text → Outcome Stamp
  unfolding split_bar
  decode_created_id_cursor cursor = decode_raw (c.decode64 cursor)

  abbrev pub page_at : ℕ → Outcome Stamp → Outcome Page
  page_at limit (ok (at, id)) =
      ok (record { limit = limit; offset = 0; cursor_created_at = some at; cursor_id = some id })
  page_at limit (raised e) = raised e

  -- With the limit and the offset that FastAPI has checked. A page with a cursor has offset 0.
  unfoldable pub get_pagination_params : (limit offset : ℕ) → Option Text → Outcome Page
  unfolding decode_created_id_cursor
  get_pagination_params limit offset none =
      ok (record { limit = limit; offset = offset; cursor_created_at = none; cursor_id = none })
  get_pagination_params limit offset (some cursor) =
      if ltb 0 offset
      then raised (http_exception 422)
      else page_at limit (decode_created_id_cursor cursor)

-- What is used of the codecs: each reads what it wrote, and a time has no bar in it.
pub record IsCodec (c : Codec) : Type 0 where
  pub read64 : (s : Text) → c.decode64 (c.encode64 s) ≡ some s
  pub read_time : (t : ℕ) → c.fromisoformat (c.isoformat t) ≡ some t
  pub read_uuid : (i : ℕ) → c.uuid_of (c.uuid_text i) ≡ some i
  pub no_bar : (t : ℕ) → All (λ x. (x == b'|') ≡ false) (c.isoformat t)

split_bar-append :
    (a b : Text) → All (λ x. (x == b'|') ≡ false) a → split_bar (a ++ b'|' ∷ b) ≡ some (a, b)
unfolding split_bar
split_bar-append [] b h = refl
split_bar-append (x ∷ a) b (p, h) = rw p (ap (prepend x) (split_bar-append a b h))

-- If the codecs read what they wrote and a time has no bar in it: the cursor of a row, sent back
-- with offset 0, is the page after that row.
pub get_pagination_params-encode :
    (c : Codec) (limit created_at row_id : ℕ)
    → IsCodec c
    → get_pagination_params c limit 0 (some (encode_created_id_cursor c created_at row_id))
      ≡ ok (page_after limit (created_at, row_id))
unfolding get_pagination_params decode_created_id_cursor encode_created_id_cursor
get_pagination_params-encode c limit created_at row_id h =
    ap (λ o. page_at c limit (decode_raw c o)) (h.read64 _)
    ∙ ap (λ o. page_at c limit (decode_parts c o))
        (split_bar-append (c.isoformat created_at) (c.uuid_text row_id) (h.no_bar created_at))
    ∙ rw (h.read_time created_at, h.read_uuid row_id) refl
