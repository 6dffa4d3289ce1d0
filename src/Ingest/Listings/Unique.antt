-- ===== src/Ingest/Listings/Unique.antt =====
-- app/services/ingest.py: provider and external id of the listings under `upsert_listing`.
use wax_watch_api.Prelude.{
  ℕ, ◌==◌, ◌≡◌, refl, ◌∙◌, Option, none, some, Bool, true, false, List, [], ◌∷◌, ◌++◌, any,
  any-append, first, arith, if◌then◌else◌,
}
use wax_watch_api.Prelude.Text.{Text, text_eq, text_eq_iff}
use wax_watch_api.Models.{
  Provider, discogs, ebay, mock, musicbrainz, spotify, provider_eq, Listing, PriceSnapshot,
}
use wax_watch_api.Environment.{Environment}
use wax_watch_api.Session.{Tables, World, pure, ◌>>◌, option_case}
use wax_watch_api.Session.Keeps.{
  Keeps, Keeps-modify, Keeps-bind, Keeps-pure, Keeps-if, Keeps-raise, Keeps-gets, Keeps-option,
  Holds, Holds-now_utc, Holds-fresh_id, Holds-overtaken,
}
use wax_watch_api.Session.Ensures.{
  Ensures, Ensures-bind, Ensures-gets, Ensures-modify, Ensures-pure, Keeps_of_ensures,
}
use wax_watch_api.Ingest.Listings.{
  provider_of, Payload, has_key, listing_of, append_listing, append_snapshot, insert_listing,
  revise_rows, revise, write_listing, is_repriced, update_listing, load_created, load_raced,
  insert_or_race, upsert_known, upsert_listing,
}

-- No later row has the key of an earlier one.
unfoldable pub IsUnique : List Listing → Type 0
IsUnique [] = Unit
IsUnique (l ∷ ls) = (any (has_key l.provider l.external_id) ls ≡ false) × IsUnique ls

pub record UniqueListings (t : Tables) : Type 0 where
  pub unique : IsUnique t.listings

any-none : {A : Type 0} (p : A → Bool) (xs : List A) → first p xs ≡ none → any p xs ≡ false
any-none p [] e = refl
any-none p (x ∷ xs) e = ground (arith, any-none p xs)

provider_eq_sym : (a b : Provider) → provider_eq a b ≡ provider_eq b a
provider_eq_sym discogs b = ground arith
provider_eq_sym ebay b = ground arith
provider_eq_sym mock b = ground arith
provider_eq_sym musicbrainz b = ground arith
provider_eq_sym spotify b = ground arith

text_eq_sym : (s t : Text) → text_eq s t ≡ text_eq t s
text_eq_sym s t = ground (arith, text_eq_iff s t, text_eq_iff t s)

-- `has_key` is symmetric.
key_sym : (a b : Listing) → has_key a.provider a.external_id b ≡ has_key b.provider b.external_id a
key_sym a b =
    rw (provider_eq_sym a.provider b.provider, text_eq_sym a.external_id b.external_id) refl

append-IsUnique :
    (ls : List Listing) (l : Listing)
    → listing_of l.provider l.external_id ls ≡ none
    → IsUnique ls
    → IsUnique (ls ++ l ∷ [])
unfolding IsUnique
append-IsUnique [] l new h = (refl, tt)
append-IsUnique (k ∷ ls) l new (h, hs) = (
  any-append _ ls (l ∷ []) ∙ ground (arith, key_sym k l, h),
  append-IsUnique ls l (ground arith) hs,
)

revise_any :
    (p : Listing → Bool) (id : ℕ) (f : Listing → Listing) (ls : List Listing)
    → ((l : Listing) → p (f l) ≡ p l)
    → any p (revise_rows id f ls) ≡ any p ls
unfolding revise_rows
revise_any p id f [] same = refl
revise_any p id f (l ∷ ls) same = ground (arith, same l, revise_any p id f ls same)

module _ (env : Environment) (p : Payload) (now id : ℕ) where
  revise-IsUnique :
      (ls : List Listing) → IsUnique ls → IsUnique (revise_rows id (revise env p now) ls)
  unfolding revise_rows IsUnique
  revise-IsUnique [] h = tt
  revise-IsUnique (l ∷ ls) (h, hs) = (
    elim (l.id == id)
        as (λ b.
          let x = if b then revise env p now l else l in
          any (has_key x.provider x.external_id) (revise_rows id (revise env p now) ls) ≡ false) [
            | true ↦
                revise_any (has_key l.provider l.external_id) id (revise env p now) ls (λ m. refl)
                ∙ h
            | false ↦
                revise_any (has_key l.provider l.external_id) id (revise env p now) ls (λ m. refl)
                ∙ h
          ],
    revise-IsUnique ls hs,
  )

append_snapshot-Holds : (s : PriceSnapshot) → Keeps (Holds UniqueListings) (append_snapshot s)
unfolding append_snapshot
append_snapshot-Holds s =
    Keeps-modify _
      (λ w h. record { here = record { unique = h.here.unique }; elsewhere = h.elsewhere })

insert_listing-Holds : (l : Listing) → Keeps (Holds UniqueListings) (insert_listing l)
unfolding insert_listing append_listing
insert_listing-Holds l =
    Keeps_of_ensures (λ _ w h. h)
      (Ensures-bind
        {R = λ o w. Holds UniqueListings w × (listing_of l.provider l.external_id w.listings ≡ o)} _
        _ (Ensures-gets _ (λ w h. (h, refl))) inserted)
  where
    inserted :
        (o : Option Listing)
        → Ensures
            (λ w. Holds UniqueListings w × (listing_of l.provider l.external_id w.listings ≡ o))
            (option_case o (do append_listing l; pure (some l.id)) (λ _. pure none))
            (λ _. Holds UniqueListings)
            (Holds UniqueListings)
    inserted none =
        Ensures-bind {R = λ _. Holds UniqueListings} _ _
          (Ensures-modify _ (λ w h. record {
            here = record { unique = append-IsUnique w.listings l h.1 h.0.here.unique };
            elsewhere = h.0.elsewhere;
          }))
          (λ _. Ensures-pure _ (λ w h. h))
    inserted (some k) = Ensures-pure none (λ w h. h.0)

module _ (env : Environment) where
  write_listing-Holds :
      (p : Payload) (now id : ℕ) → Keeps (Holds UniqueListings) (write_listing env p now id)
  unfolding write_listing
  write_listing-Holds p now id = Keeps-modify _ (λ w h. record {
    here = record { unique = revise-IsUnique env p now id w.listings h.here.unique };
    elsewhere = h.elsewhere;
  })

  update_listing-Holds :
      (p : Payload) (now : ℕ) (l : Listing)
      → Keeps (Holds UniqueListings) (update_listing env p now l)
  unfolding update_listing
  update_listing-Holds p now l = Keeps-bind _ _ (write_listing-Holds p now l.id) (λ _.
      Keeps-if (is_repriced (revise env p now l) l) _ _
        (Keeps-bind _ _ (append_snapshot-Holds _) (λ _. Keeps-pure _)) (Keeps-pure _))

  load_created-Holds :
      (provider : Provider) (p : Payload) (now id : ℕ)
      → Keeps (Holds UniqueListings) (load_created provider p now id)
  unfolding load_created
  load_created-Holds provider p now id = Keeps-bind _ _ (Keeps-gets _) (λ found.
      Keeps-option found _ _ (Keeps-pure _)
        (λ l. Keeps-bind _ _ (append_snapshot-Holds _) (λ _. Keeps-pure _)))

  load_raced-Holds :
      (provider : Provider) (p : Payload) (now : ℕ)
      → Keeps (Holds UniqueListings) (load_raced env provider p now)
  unfolding load_raced
  load_raced-Holds provider p now =
      Keeps-bind _ _ (Keeps-gets _)
        (λ found. Keeps-option found _ _ (Keeps-raise _) (update_listing-Holds p now))

  insert_or_race-Holds :
      (provider : Provider) (p : Payload) (now : ℕ)
      → Keeps (Holds UniqueListings) (insert_or_race env provider p now)
  unfolding insert_or_race
  insert_or_race-Holds provider p now = Keeps-bind _ _ Holds-fresh_id (λ id.
      Keeps-bind _ _ Holds-overtaken (λ _. Keeps-bind _ _ (insert_listing-Holds _) (λ inserted.
        Keeps-option inserted _ _ (load_raced-Holds provider p now)
          (load_created-Holds provider p now))))

  upsert_known-Holds :
      (p : Payload) (provider : Provider)
      → Keeps (Holds UniqueListings) (upsert_known env p provider)
  unfolding upsert_known
  upsert_known-Holds p provider = Keeps-bind _ _ Holds-now_utc (λ now.
      Keeps-bind _ _ (Keeps-gets _) (λ found.
        Keeps-option found _ _ (insert_or_race-Holds provider p now) (update_listing-Holds p now)))

  -- On every path of an upsert, a lost race included: if no two stored listings had the same
  -- provider and external id before, and other transactions keep it so, no two have after.
  pub upsert_unique :
      (p : Payload) (w : World)
      → Holds UniqueListings w
      → Holds UniqueListings (upsert_listing env p w).1
  unfolding upsert_listing
  upsert_unique p w h =
      (Keeps-option (provider_of p.provider) _ _ (Keeps-raise _) (upsert_known-Holds p)).at w h
