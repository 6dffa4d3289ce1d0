-- ===== src/Providers/Listings.antt =====
-- app/providers/discogs.py and app/providers/ebay.py: the listings that a search finds.
use wax_watch_api.Prelude.{
  ℕ, ◌≡◌, refl, Option, none, some, Bool, true, false, ◌&&◌, List, [], ◌∷◌, ◌++◌, All, max,
  and-eq-true, get_or, if◌then◌else◌,
}
use wax_watch_api.Prelude.Text.{Text, codes, text_key, text_eq, nonempty}
use wax_watch_api.Prelude.Dict.{Dict, get}
use wax_watch_api.Json.{Json, null, number, boolean, text, arr, obj, nil}
use wax_watch_api.WatchRules.Validate.{look}
use wax_watch_api.Models.{Provider, discogs, ebay}
use wax_watch_api.Ingest.Listings.{Payload, provider_of}
use wax_watch_api.Runner.{ProviderRequestLog}
use wax_watch_api.Runner.Requests.{listings_of}
use wax_watch_api.Search.Clients.{IsHonest, IsKnown}
use wax_watch_api.Providers.{HttpResponse, Python, RetrySettings, Wire}
use wax_watch_api.Providers.Answers.{
  Computed, value, thrown, ◌>>=◌, kept, decoded, iterated, as_dict, or_empty, collected,
  listings_in, searched,
}
use wax_watch_api.Providers.Attempts.{Ended, arrived, failed, Tries}
use wax_watch_api.Providers.Discogs.{
  discogs_api, discogs_tries, discogs_end, discogs_run, discogs_listing, discogs_search,
  new_discogs_client,
}
use wax_watch_api.Providers.Ebay.{
  ebay_end, ebay_tries, ebay_authorized, ebay_run, price_of, is_complete, ebay_kept, ebay_item,
  ebay_listing, ebay_search, new_ebay_client,
}
use wax_watch_api.Providers.EbayToken.{EbaySettings, Auth, authorized, denied, broken, auth_token}

-- A listing of the provider, with an identifier, a title and an address.
pub record IsListed (name : Text) (p : Payload) : Type 0 where
  pub named : p.provider ≡ name
  pub has_identifier : nonempty p.external_id ≡ true
  pub has_title : nonempty p.title ≡ true
  pub addressed : nonempty p.url ≡ true

abbrev WhenValue : {A : Type 0} → (A → Type 0) → Computed A → Type 0
WhenValue P (value a) = P a
WhenValue P (thrown message class_name) = Unit

abbrev WhenKept : (Payload → Type 0) → Option Payload → Type 0
WhenKept P none = Unit
WhenKept P (some p) = P p

then-WhenValue :
    {A B : Type 0} (Q : B → Type 0) (m : Computed A) (f : A → Computed B)
    → ((a : A) → WhenValue Q (f a))
    → WhenValue Q (m >>= f)
then-WhenValue Q (value a) f h = h a
then-WhenValue Q (thrown message class_name) f h = tt

module _ (P : Payload → Type 0) where
  if-WhenKept :
      (b : Bool) (p : Payload) → (b ≡ true → P p) → WhenKept P (if b then some p else none)
  if-WhenKept true p h = h refl
  if-WhenKept false p h = tt

  found-All : (m : Computed (List Payload)) → WhenValue (All P) m → All P (listings_of (searched m))
  found-All (value ls) h = h
  found-All (thrown message class_name) h = tt

  one_more :
      (m : Computed (Option Payload)) (rest : Computed (List Payload))
      → WhenValue (WhenKept P) m
      → WhenValue (All P) rest
      → WhenValue (All P) (m >>= λ p. rest >>= λ ps. value (kept p ps))
  one_more (value none) (value ps) h k = k
  one_more (value (some p)) (value ps) h k = (h, k)
  one_more (value p) (thrown message class_name) h k = tt
  one_more (thrown message class_name) rest h k = tt

  module _ (py : Python) (listing_of : Json → Computed (Option Payload))
      (good : (v : Json) → WhenValue (WhenKept P) (listing_of v)) where
    listings-All : (vs : List Json) → WhenValue (All P) (collected py listing_of vs)
    unfolding collected
    listings-All [] = tt
    listings-All (v ∷ vs) =
        one_more (listing_of v) (collected py listing_of vs) (good v) (listings-All vs)

    listings_in-All :
        (key : Text) (r : HttpResponse)
        → All P (listings_of (searched (listings_in py listing_of key r)))
    unfolding listings_in
    listings_in-All key r = found-All (listings_in py listing_of key r) (
        then-WhenValue (All P) (decoded py r r.body) _ (λ v.
          then-WhenValue (All P) (as_dict py v) _ (λ d.
            then-WhenValue (All P) (iterated py (get_or (get key d) (arr nil))) _ listings-All)))

complete :
    (name : Text) (p : Payload)
    → p.provider ≡ name
    → (nonempty p.external_id && nonempty p.title && nonempty p.url) ≡ true
    → IsListed name p
complete name p e h =
    let (both, address) = and-eq-true (nonempty p.external_id && nonempty p.title) _ h in
    let (id, title) = and-eq-true (nonempty p.external_id) _ both in
    record { named = e; has_identifier = id; has_title = title; addressed = address }

module _ (py : Python) where
  discogs_listing-IsListed :
      (v : Json) → WhenValue (WhenKept (IsListed (codes "discogs"))) (discogs_listing py v)
  unfolding discogs_listing
  discogs_listing-IsListed (obj fs) =
      if-WhenKept (IsListed (codes "discogs")) _ _ (λ h. complete _ _ refl h)
  discogs_listing-IsListed null = tt
  discogs_listing-IsListed (boolean b) = tt
  discogs_listing-IsListed (number n) = tt
  discogs_listing-IsListed (text s) = tt
  discogs_listing-IsListed (arr vs) = tt

  ebay_kept-IsListed :
      (item price : Dict Text Json) (amount : Option ℕ)
      → is_complete py item price ≡ true
      → WhenValue (WhenKept (IsListed (codes "ebay"))) (ebay_kept py item price amount)
  ebay_kept-IsListed item price none h = tt
  ebay_kept-IsListed item price (some amount) h =
      let Q = WhenKept (IsListed (codes "ebay")) in
      then-WhenValue Q (or_empty py (look (codes "seller") item)) _ (λ seller.
        then-WhenValue Q (or_empty py (look (codes "itemLocation") item)) _
          (λ location. complete _ _ refl (without_price _ _ h)))
    where
      without_price : (b c : Bool) → (b && c) ≡ true → b ≡ true
      without_price b c h = (and-eq-true b c h).0

  ebay_item-IsListed :
      (item price : Dict Text Json)
      → WhenValue (WhenKept (IsListed (codes "ebay"))) (ebay_item py item price)
  ebay_item-IsListed item price =
      elim (is_complete py item price)
          as (λ b.
            is_complete py item price ≡ b
            → WhenValue (WhenKept (IsListed (codes "ebay"))) (
                if b
                then ebay_kept py item price (price_of py (look (codes "value") price))
                else value none)) [
                  | true ↦ ebay_kept-IsListed item price (price_of py (look (codes "value") price))
                  | false ↦ (λ e. tt)
                ]
        refl

  ebay_listing-IsListed :
      (v : Json) → WhenValue (WhenKept (IsListed (codes "ebay"))) (ebay_listing py v)
  unfolding ebay_listing
  ebay_listing-IsListed v =
      let Q = WhenKept (IsListed (codes "ebay")) in
      then-WhenValue Q (as_dict py v) _ (λ item.
        then-WhenValue Q (or_empty py (look (codes "price") item)) _
          (λ price. ebay_item-IsListed item price))

-- A search of either client, on whatever answers of the network: every listing that it finds
-- names the client's marketplace and has an identifier, a title and an address, none of them
-- empty.
pub searches-IsListed :
    (py : Python) (s : RetrySettings) (token : Text) (e : EbaySettings) (w : Wire)
    (query : Dict Text Json) (limit : ℕ)
    → All
        (IsListed (codes "discogs"))
        (listings_of (discogs_search py s token w query limit).result)
      × All (IsListed (codes "ebay")) (listings_of (ebay_search py e w query limit).result)
unfolding discogs_search ebay_search
searches-IsListed py s token e w query limit = (discogs_all _, ebay_all _)
  where
    discogs_end_all :
        (t : Tries) (end : Ended)
        → All
            (IsListed (codes "discogs"))
            (listings_of (discogs_end py w (discogs_api py (max s.max_attempts 1)) t end).result)
    discogs_end_all t (arrived r attempt) =
        listings_in-All (IsListed (codes "discogs")) py (discogs_listing py)
          (discogs_listing-IsListed py) (codes "results") r
    discogs_end_all t (failed x) = tt

    discogs_all :
        (q : Computed Text)
        → All (IsListed (codes "discogs")) (listings_of (discogs_run py s token w limit q).result)
    discogs_all (value q) = let t = discogs_tries py s token w q limit in discogs_end_all t t.ended
    discogs_all (thrown message class_name) = tt

    ebay_end_all :
        (logs : List ProviderRequestLog) (end : Ended)
        → All (IsListed (codes "ebay")) (listings_of (ebay_end py e w logs end).result)
    ebay_end_all logs (arrived r attempt) =
        listings_in-All (IsListed (codes "ebay")) py (ebay_listing py) (ebay_listing-IsListed py)
          (codes "itemSummaries") r
    ebay_end_all logs (failed x) = tt

    authorized_all :
        (q : Text) (auth : Auth)
        → All (IsListed (codes "ebay")) (listings_of (ebay_authorized py e w q limit auth).result)
    authorized_all q (logs, authorized token) =
        let t = ebay_tries py e w token q limit in ebay_end_all (logs ++ t.logged) t.ended
    authorized_all q (logs, denied x) = tt
    authorized_all q (logs, broken message class_name) = tt

    ebay_all :
        (q : Computed Text)
        → All (IsListed (codes "ebay")) (listings_of (ebay_run py e w limit q).result)
    ebay_all (value q) = authorized_all q (auth_token py w e)
    ebay_all (thrown message class_name) = tt

IsKnown-listed :
    (name : Text) (p : Provider)
    → provider_of name ≡ some p
    → (ls : List Payload) → All (IsListed name) ls
    → All (λ (i : Payload). IsKnown i.provider) ls
IsKnown-listed name p e [] h = tt
IsKnown-listed name p e (l ∷ ls) (h, hs) = ((p, rw h.named e), IsKnown-listed name p e ls hs)

-- So a search of the marketplaces can use both.
clients-IsHonest :
    (py : Python) (s : RetrySettings) (token : Text) (e : EbaySettings) (wire : ℕ → Wire)
    → IsHonest (new_discogs_client py s token wire) × IsHonest (new_ebay_client py e wire)
unfolding provider_of text_eq
clients-IsHonest py s token e wire = (
  λ n query limit.
      IsKnown-listed (codes "discogs") discogs refl _
        (searches-IsListed py s token e (wire n) query limit).0,
  λ n query limit.
      IsKnown-listed (codes "ebay") ebay refl _
        (searches-IsListed py s token e (wire n) query limit).1,
)
