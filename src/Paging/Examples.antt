-- ===== src/Paging/Examples.antt =====
-- Pages of a listing.
use wax_watch_api.Prelude.{◌≡◌, refl, List, [], ◌∷◌, ◌++◌}
use wax_watch_api.Prelude.{ℕ, some, ◌+◌, ◌-◌, ap, Option, none, arith}
use wax_watch_api.Prelude.Text.{Text}
use wax_watch_api.Session.{ok}
use wax_watch_api.Paging.Cursor.{
  Codec, IsCodec, encode_created_id_cursor, get_pagination_params, get_pagination_params-encode,
}
use wax_watch_api.Models.{WatchSearchRule, WatchRelease}
use wax_watch_api.Paging.{order_by, insert_row, page_of, list_watch_rules}
use wax_watch_api.Paging.Join.{first_page, page_after, list_watch_rules-join}
use wax_watch_api.Samples.{rule, release}

-- Two of the three were created at one time.
abbrev rules : List WatchSearchRule
rules =
    rule ∷ record rule { id = 12; created_at = 5 } ∷ record rule { id = 11; created_at = 5 } ∷ []

rules_in_order :
    list_watch_rules 1 (first_page 2) rules
    ≡ record rule { id = 12; created_at = 5 } ∷ record rule { id = 11; created_at = 5 } ∷ []
unfolding list_watch_rules page_of order_by insert_row
rules_in_order = refl

list_watch_rules-join_example :
    list_watch_rules 1 (first_page 1) rules ++ list_watch_rules 1 (page_after 2 (5, 12)) rules
    ≡ list_watch_rules 1 (first_page 3) rules
unfolding list_watch_rules page_of order_by insert_row
list_watch_rules-join_example =
    list_watch_rules-join 1 1 2 rules (record rule { id = 12; created_at = 5 })
      ((refl, (refl, tt)), ((refl, tt), (tt, tt))) refl

abbrev releases : List WatchRelease
releases = release ∷ record release { id = 31; created_at = 9 } ∷ []

abbrev less : ℕ → Text → Option ℕ
less k [] = none
less k (x ∷ s) = some (x - k)

-- A codec that writes a time and an identifier as one character each.
abbrev plain : Codec
plain = record {
  encode64 = λ s. s;
  decode64 = λ s. some s;
  isoformat = λ t. (t + 200) ∷ [];
  fromisoformat = λ s. less 200 s;
  uuid_text = λ i. i ∷ [];
  uuid_of = λ s. less 0 s;
}

plain-IsCodec : IsCodec plain
plain-IsCodec = record {
  read64 = λ s. refl;
  read_time = λ t. ap (λ (k : ℕ). some k) (omega arith);
  read_uuid = λ i. ap (λ (k : ℕ). some k) (omega arith);
  no_bar = λ t. (ground arith, tt);
}

get_pagination_params-encode_example :
    get_pagination_params plain 20 0 (some (encode_created_id_cursor plain 5 12))
    ≡ ok (page_after 20 (5, 12))
get_pagination_params-encode_example = get_pagination_params-encode plain 20 5 12 plain-IsCodec
