-- ===== src/Search/Page.antt =====
-- app/services/search.py: the page that a search returns.
use wax_watch_api.Prelude.{
  ℕ, ◌≤◌, ◌≡◌, refl, sym, ap, ◌∙◌, subst, some, true, List, [], ◌∷◌, ◌++◌, append_assoc, append-nil,
  keep, length, All, All-append, All-keep,
}
use wax_watch_api.Prelude.Text.{Text, text_eq}
use wax_watch_api.Prelude.Dict.{Dict}
use wax_watch_api.Json.{Json}
use wax_watch_api.Models.{Provider}
use wax_watch_api.Environment.{Environment}
use wax_watch_api.Session.{World, ok, gets, pure, ◌>>=◌, now_utc, fresh_id}
use wax_watch_api.Session.Ensures.{
  Ensures, Post, Ensures-bind, Ensures-pure, Ensures-gets, Ensures-fact, Ensures-modify,
  Ensures_weaken,
}
use wax_watch_api.Ingest.Listings.{Payload, provider_of}
use wax_watch_api.Runner.{ProviderRequestLog, ProviderClient, append_request, log_provider_request}
use wax_watch_api.Runner.Requests.{log_requests, listings_of, provider_or_raise}
use wax_watch_api.Runner.Registry.{RegistrySettings, get_provider_class}
use wax_watch_api.Search.Schema.{SearchQuery, within_bounds, build, validate_providers}
use wax_watch_api.Search.{
  known_providers, Gathered, nothing_gathered, assemble, persisted_ids, outs, response,
  resolve_providers, search_provider, search_providers, run_search,
}
use wax_watch_api.Search.Filter.{passes_filters, sort_items, page_items}
use wax_watch_api.Search.Ascending.{sort_items-IsAscending}
use wax_watch_api.Search.Answers.{
  AreAnswers, none_asked, one_answer, keep-AreThose, sorted-Perm, length-sorted,
}
use wax_watch_api.Search.Clients.{
  IsKnown, IsHonest, HasHonestClients, IsSearchable, AreSearchable, validated-AreSearchable,
}
use wax_watch_api.Search.Contents.{
  IsPage, bounded-positive, built-has_next, kept-Fits, keys-outs, length-outs, length-page,
  outs-Fits, page-All, passed-Fits, refused-Fits,
}

module _ (env : Environment) (registry : RegistrySettings) where
  abbrev Anything : World → Type 0
  Anything w = Unit

  abbrev KnownItem : Payload → Type 0
  KnownItem i = IsKnown i.provider

  logged :
      (user_id : ℕ) (provider : Provider) (rs : List ProviderRequestLog)
      → Ensures Anything (log_requests user_id provider rs) (λ _. Anything) (λ w. ⊥)
  unfolding log_requests log_provider_request append_request now_utc fresh_id
  logged user_id provider [] = Ensures-pure _ (λ w h. tt)
  logged user_id provider (r ∷ rs) =
      Ensures-bind {R = λ _. Anything} _ _
        (Ensures-bind {R = λ _. Anything} _ _ (record { at = λ w h. tt })
          (λ at.
            Ensures-bind {R = λ _. Anything} _ _ (record { at = λ w h. tt })
              (λ id. Ensures-modify _ (λ w h. tt))))
        (λ _. logged user_id provider rs)

  -- What the loop over the providers has gathered when it returns.
  abbrev Collected : SearchQuery → List Text → Gathered → Type 0
  Collected query names g =
      (g.providers_searched ≡ names)
      × All KnownItem g.listings
      × AreAnswers env.unicode registry query names g.listings

  searched_one :
      (user_id : ℕ) (query : SearchQuery) (name : Text) (p : Provider) (c : ProviderClient)
      (before : List Text) (g : Gathered)
      → ((n : ℕ) (q : Dict Text Json) (limit : ℕ)
          → All KnownItem (listings_of (c.search n q limit).result))
      → get_provider_class env.unicode registry (some name) ≡ ok c
      → Collected query before g
      → Ensures Anything
          (search_provider env registry user_id query name p c g)
          (λ g' _. Collected query (before ++ name ∷ []) g')
          (λ w. ⊥)
  unfolding search_provider
  searched_one user_id query name p c before g honest class (same, known, answers) =
      Ensures-bind {R = λ _. Anything} _ _ (Ensures-gets _ (λ w h. tt)) (λ n.
        Ensures-bind {R = λ _. Anything} _ _ (logged user_id p _) (λ _. Ensures-pure _ (λ w h. (
          ap (λ ns. ns ++ name ∷ []) same,
          All-append KnownItem g.listings _ known (honest n _ _),
          one_answer env.unicode registry query name c n _ answers class refl,
        ))))

  -- The loop, from the names searched `before` on.
  abbrev Searches : ℕ → SearchQuery → (before names : List Text) → Gathered → Type 0
  Searches user_id query before names g =
      Ensures Anything (search_providers env registry user_id query names g)
        (λ g' _. Collected query (before ++ names) g') (λ w. ⊥)

  searched_next :
      (user_id : ℕ) (query : SearchQuery) (name : Text) (names before : List Text) (p : Provider)
      (c : ProviderClient) (g : Gathered)
      → IsHonest c
      → ((more : Gathered)
          → Collected query (before ++ name ∷ []) more
          → Searches user_id query (before ++ name ∷ []) names more)
      → Collected query before g
      → provider_of name ≡ some p
      → get_provider_class env.unicode registry (some name) ≡ ok c
      → Searches user_id query before (name ∷ names) g
  unfolding search_providers provider_or_raise ◌>>=◌
  searched_next user_id query name names before p c g honest rest k e f =
      let one = searched_one user_id query name p c before g honest f k in
      let both = Ensures-bind {P = Anything} _ _ one (λ more. record {
        at = λ w collected.
            subst
              (λ ns.
                Post (λ g' _. Collected query ns g') (λ w. ⊥)
                  (search_providers env registry user_id query names more w))
              (append_assoc before (name ∷ []) names) ((rest more collected).at w tt);
      }) in
      rw (e, f) (record { at = both.at })

  searched-All :
      (user_id : ℕ) (query : SearchQuery) (names before : List Text) (g : Gathered)
      → All (IsSearchable env.unicode registry) names
      → Collected query before g
      → Searches user_id query before names g
  unfolding search_providers
  searched-All user_id query [] before g h (same, known, answers) = Ensures-pure _ (λ w _. (
    same ∙ sym (append-nil before),
    known,
    subst (λ ns. AreAnswers env.unicode registry query ns g.listings) (sym (append-nil before))
        answers,
  ))
  searched-All user_id query (name ∷ names) before g (((p, e), c, f, honest), hs) k =
      searched_next user_id query name names before p c g honest
        (λ more. searched-All user_id query names (before ++ name ∷ []) more hs) k e f

  providers_known :
      (items : List Payload)
      → All KnownItem items
      → (ps : List Provider) × (known_providers items ≡ ok ps)
  unfolding known_providers text_eq
  providers_known [] h = ([], refl)
  providers_known (i ∷ items) ((p, e), hs) =
      let (ps, es) = providers_known items hs in (p ∷ ps, rw (e, es) refl)

  persisted :
      (items : List Payload)
      → All KnownItem items
      → Ensures Anything (persisted_ids items) (λ _. Anything) (λ w. ⊥)
  unfolding persisted_ids ◌>>=◌ pure gets
  persisted [] h = record { at = λ w _. tt }
  persisted (i ∷ items) h =
      let (ps, e) = providers_known (i ∷ items) h in rw e (record { at = λ w _. tt })

  answered :
      (query : SearchQuery) (names : List Text) (g : Gathered) (ids : Dict (Text × Text) ℕ)
      → 1 ≤ query.page_size
      → g.providers_searched ≡ names
      → AreAnswers env.unicode registry query names g.listings
      → IsPage env.unicode registry query names (
          response env registry query g
            (sort_items (keep (passes_filters env.unicode query) g.listings))
            ids)
  unfolding build page_items
  answered query names g ids positive same answers =
      let kept = keep (passes_filters env.unicode query) g.listings in
      let filtered = sort_items kept in
      record {
        fit =
            outs-Fits ids env.unicode query (page_items query filtered)
              (page-All _ query kept (kept-Fits env.unicode query g.listings));
        brought = g.listings;
        answers = answers;
        fitting = kept;
        those =
            keep-AreThose (passes_filters env.unicode query) (passed-Fits env.unicode query)
              (refused-Fits env.unicode query) g.listings;
        total = length-sorted kept;
        ordered = filtered;
        same = sorted-Perm kept;
        ascending = sort_items-IsAscending kept;
        shown = keys-outs ids (page_items query filtered);
        tallied = refl;
        filled = length-outs ids (page_items query filtered) ∙ length-page query filtered;
        has_next =
            built-has_next query.page query.page_size (length filtered)
              (length (outs ids (page_items query filtered))) positive;
        searched = same;
      }

  resolved :
      (query : SearchQuery) (names : List Text)
      → query.providers ≡ some names
      → AreSearchable env.unicode registry names
      → (resolve_providers env registry query ≡ names)
        × All (IsSearchable env.unicode registry) names
  unfolding resolve_providers AreSearchable
  resolved query [] e h = elim h [ ]
  resolved query (name ∷ names) e h = (rw e refl, h)

  finished :
      (query : SearchQuery) (names : List Text) (g : Gathered)
      → 1 ≤ query.page_size
      → Collected query names g
      → Ensures Anything
          (assemble env registry query g)
          (λ out _. IsPage env.unicode registry query names out)
          (λ w. ⊥)
  unfolding assemble
  finished query names g positive (same, known, answers) =
      let items = keep (passes_filters env.unicode query) g.listings in
      let known_page = page-All KnownItem query items (All-keep KnownItem _ g.listings known) in
      Ensures-bind {R = λ _. Anything} _ _ (persisted _ known_page)
        (λ ids. Ensures-pure _ (λ w h. answered query names g ids positive same answers))

  run :
      (user_id : ℕ) (query : SearchQuery) (names : List Text)
      → 1 ≤ query.page_size
      → resolve_providers env registry query ≡ names
      → All (IsSearchable env.unicode registry) names
      → Ensures Anything
          (run_search env registry user_id query)
          (λ out _. IsPage env.unicode registry query names out)
          (λ w. ⊥)
  unfolding run_search
  run user_id query names positive e h = rw e (
      Ensures-bind {R = λ g _. Unit {0} × Collected query names g} _ _
        (Ensures_weaken (λ g w c. (tt, c)) (λ w x. x)
          (searched-All user_id query names [] nothing_gathered h (refl, tt, none_asked)))
        (λ g. Ensures-fact (finished query names g positive)))

-- A query that the schema has accepted, naming its providers, on clients whose listings name a
-- provider: the search returns, whatever the clients do. Every provider of the query was searched,
-- in order, by the client that the registry has for it. Of the listings that they brought, exactly
-- those within the price bounds and of the condition are counted in the total; put in ascending
-- order of price, provider and external id, they are cut into pages, of which the response shows
-- the one that was asked for; there are as many items as the page says, and as the page size
-- allows or as are left; and another page is announced exactly if listings are left for it.
pub run_search-IsPage :
    (env : Environment) (registry : RegistrySettings) (user_id : ℕ) (query : SearchQuery)
    (raw names : List Text) (w : World)
    → HasHonestClients registry
    → validate_providers env.unicode registry (some raw) ≡ ok (some names)
    → query.providers ≡ some names
    → within_bounds query ≡ true
    → Post
        (λ out _. IsPage env.unicode registry query names out)
        (λ _. ⊥)
        (run_search env registry user_id query w)
run_search-IsPage env registry user_id query raw names w honest accepted named bounded =
    let sound = validated-AreSearchable env.unicode registry honest raw accepted in
    let (e, h) = resolved env registry query names named sound in
    (run env registry user_id query names (bounded-positive query bounded) e h).at w tt
