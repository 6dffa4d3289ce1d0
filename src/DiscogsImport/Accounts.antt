-- ===== src/DiscogsImport/Accounts.antt =====
-- app/services/discogs_import.py: the account link of a user, and its token.
pub mod Sealed
use wax_watch_api.Prelude.{
  ℕ, ◌==◌, zero, suc, Option, none, some, Bool, true, false, not, ◌&&◌, ◌||◌, List, [], ◌∷◌, ◌++◌,
  first, keep, take, any, is_some, or_else, get_or, leb, ltb, if◌then◌else◌,
}
use wax_watch_api.Prelude.Sort.{sort_by}
use wax_watch_api.Prelude.Text.{Text, codes, text_eq, Unicode, truthy_text}
use wax_watch_api.Prelude.Dict.{Dict}
use wax_watch_api.Json.{Json}
use wax_watch_api.Models.{Provider, discogs, provider_eq, ExternalAccountLink, ImportJob, User}
use wax_watch_api.Environment.{Environment}
use wax_watch_api.Session.{
  lift, World, Action, Outcome, pure, gets, modify, ◌>>=◌, ◌>>◌, option_case, now_utc, fresh_id,
}
use wax_watch_api.Tokens.Crypto.{encrypt, decrypt, is_encrypted, DecryptResult}
use wax_watch_api.WatchRules.Owner.{ensure_user_exists, find_user}
use wax_watch_api.DiscogsImport.{Discogs, no_reply, request}
use wax_watch_api.DiscogsImport.Metadata.{
  truthy_list, metadata_string, metadata_scopes, metadata_datetime, expiry_keys,
}

-- The link of a user to Discogs; the rows are unique over user and provider.
abbrev pub is_link_of : ℕ → ExternalAccountLink → Bool
is_link_of user_id l = l.user_id == user_id && provider_eq l.provider discogs

abbrev pub link_of : ℕ → List ExternalAccountLink → Option ExternalAccountLink
link_of user_id = first (is_link_of user_id)

unfoldable pub append_link : ExternalAccountLink → Action (Unit {0})
append_link l = modify (λ w. record w { db = record w.db { links = w.links ++ l ∷ [] } })

unfoldable pub replace_link :
    ExternalAccountLink → List ExternalAccountLink → List ExternalAccountLink
replace_link l [] = []
replace_link l (k ∷ ls) = (if k.id == l.id then l else k) ∷ replace_link l ls

unfoldable pub write_link : ExternalAccountLink → Action (Unit {0})
write_link l = modify (λ w. record w { db = record w.db { links = replace_link l w.links } })

abbrev is_job_of : ℕ → ImportJob → Bool
is_job_of link_id j = is_equal j.external_account_link_id link_id
  where
    is_equal : Option ℕ → ℕ → Bool
    is_equal none id = false
    is_equal (some a) id = a == id

-- `db.delete(link)`: the relationship deletes the import jobs of the link too.
unfoldable pub delete_link : ℕ → Action (Unit {0})
delete_link id = modify (λ w. record w {
  db = record w.db {
    links = keep (λ l. not (l.id == id)) w.links;
    jobs = keep (λ j. not (is_job_of id j)) w.jobs;
  };
})

-- The arguments of `connect_account`.
pub record Connection : Type 0 where
  pub external_user_id : Text
  pub access_token : Option Text
  pub token_metadata : Option (Dict Text Json)
  pub refresh_token : Option Text
  pub access_token_expires_at : Option ℕ
  pub token_type : Option Text
  pub scopes : Option (List Text)

-- The lifecycle fields, as arguments or metadata give them.
pub record Lifecycle : Type 0 where
  pub refresh_token : Option Text
  pub token_type : Option Text
  pub scopes : Option (List Text)
  pub expiry : Option ℕ

abbrev new_link : (id user_id now : ℕ) → Connection → Option Text → Lifecycle → ExternalAccountLink
new_link id user_id now c token f = record {
  id = id;
  user_id = user_id;
  provider = discogs;
  external_user_id = c.external_user_id;
  access_token = token;
  refresh_token = f.refresh_token;
  access_token_expires_at = f.expiry;
  token_type = f.token_type;
  scopes = f.scopes;
  token_metadata = c.token_metadata;
  connected_at = now;
  created_at = now;
  updated_at = now;
}

abbrev reconnect :
    ℕ → Connection → Option Text → Lifecycle → ExternalAccountLink → ExternalAccountLink
reconnect now c token f l = record l {
  external_user_id = c.external_user_id;
  access_token = token;
  token_metadata = c.token_metadata;
  refresh_token = or_else (truthy_text f.refresh_token) l.refresh_token;
  access_token_expires_at = or_else f.expiry l.access_token_expires_at;
  token_type = or_else (truthy_text f.token_type) l.token_type;
  scopes = or_else (truthy_list f.scopes) l.scopes;
  connected_at = now;
  updated_at = now;
}

-- What `_ensure_normalized_lifecycle_fields` fills in, where the link has nothing.
unfoldable pub normalized : Lifecycle → ExternalAccountLink → ExternalAccountLink
normalized f l = record l {
  refresh_token = or_else l.refresh_token f.refresh_token;
  token_type = or_else l.token_type f.token_type;
  scopes = or_else l.scopes f.scopes;
  access_token_expires_at = or_else l.access_token_expires_at f.expiry;
}

-- `old is None and new is not None`
abbrev fills {ℓ} : {A : Type ℓ} → Option A → Option A → Bool
fills old new = not (is_some old) && is_some new

abbrev pub fills_any : Lifecycle → ExternalAccountLink → Bool
fills_any f l =
    fills l.refresh_token f.refresh_token
    || fills l.token_type f.token_type
    || fills l.scopes f.scopes
    || fills l.access_token_expires_at f.expiry

module _ (env : Environment) (d : Discogs) where
  -- `_encrypt_access_token`; Fernet draws its randomness.
  unfoldable pub encrypt_access_token : Option Text → Action (Option Text)
  unfolding encrypt
  encrypt_access_token token = do nonce ← fresh_id; pure (encrypt d.crypto nonce token)

  unfoldable pub lifecycle_of : Option (Dict Text Json) → Action Lifecycle
  unfolding metadata_string metadata_scopes metadata_datetime
  lifecycle_of m = do
    expiry ← lift (metadata_datetime env.unicode d m expiry_keys)
    pure (record {
      refresh_token = metadata_string env.unicode d m (codes "refresh_token");
      token_type = metadata_string env.unicode d m (codes "token_type");
      scopes = metadata_scopes env.unicode d m;
      expiry = expiry;
    })

  -- The arguments come before the metadata, which is read for a missing expiry alone.
  unfoldable pub lifecycle_or : Connection → Action Lifecycle
  unfolding metadata_string metadata_scopes metadata_datetime
  lifecycle_or c = do
    expiry ←
        option_case c.access_token_expires_at
          (lift (metadata_datetime env.unicode d c.token_metadata expiry_keys))
          (λ at. pure (some at))
    pure (record {
      refresh_token =
          or_else (truthy_text c.refresh_token)
            (metadata_string env.unicode d c.token_metadata (codes "refresh_token"));
      token_type =
          or_else (truthy_text c.token_type)
            (metadata_string env.unicode d c.token_metadata (codes "token_type"));
      scopes = or_else (truthy_list c.scopes) (metadata_scopes env.unicode d c.token_metadata);
      expiry = expiry;
    })

  unfoldable pub connect_account : ℕ → Connection → Action ExternalAccountLink
  unfolding lifecycle_or encrypt_access_token
  connect_account user_id c = do
    user ← ensure_user_exists env user_id
    now ← now_utc
    f ← lifecycle_or c
    found ← gets (λ w. link_of user_id w.links)
    token ← encrypt_access_token c.access_token
    option_case found
        (do
          id ← fresh_id
          append_link (new_link id user_id now c token f)
          pure (new_link id user_id now c token f))
        (λ l. do write_link (reconnect now c token f l); pure (reconnect now c token f l))

  -- `_ensure_normalized_lifecycle_fields`
  unfoldable pub ensure_normalized_lifecycle_fields :
      ExternalAccountLink → Action ExternalAccountLink
  unfolding lifecycle_of normalized
  ensure_normalized_lifecycle_fields l = do
    f ← lifecycle_of l.token_metadata
    if fills_any f l
        then (do
          now ← now_utc
          write_link (record (normalized f l) { updated_at = now })
          pure (record (normalized f l) { updated_at = now }))
        else pure l

  unfoldable pub store_token : Option Text → ExternalAccountLink → Action ExternalAccountLink
  unfolding encrypt_access_token
  store_token plaintext l = do
    token ← encrypt_access_token plaintext
    now ← now_utc
    write_link (record l { access_token = token; updated_at = now })
    pure (record l { access_token = token; updated_at = now })

  -- `_ensure_token_encrypted`
  unfoldable pub ensure_token_encrypted : ExternalAccountLink → Action ExternalAccountLink
  unfolding store_token is_encrypted
  ensure_token_encrypted l =
      if not (is_some (truthy_text l.access_token)) || is_encrypted l.access_token
      then pure l
      else store_token l.access_token l

  unfoldable pub get_status : ℕ → Action (Option ExternalAccountLink)
  unfolding ensure_normalized_lifecycle_fields ensure_token_encrypted
  get_status user_id = do
    found ← gets (λ w. link_of user_id w.links)
    option_case found (pure none) (λ l. do
      n ← ensure_normalized_lifecycle_fields l
      e ← ensure_token_encrypted n
      pure (some e))

  abbrev migrated : ExternalAccountLink → DecryptResult → Action (Option Text)
  migrated l r =
      if r.requires_migration
      then (do stored ← store_token r.plaintext l; pure r.plaintext)
      else pure r.plaintext

  -- `_get_decrypted_access_token`
  unfoldable pub get_decrypted_access_token : ExternalAccountLink → Action (Option Text)
  unfolding store_token decrypt
  get_decrypted_access_token l =
      if is_some (truthy_text l.access_token)
      then (do r ← lift (decrypt d.crypto l.access_token); migrated l r)
      else pure none

  -- The revocation goes out for a link with a token; what comes of it is ignored.
  unfoldable pub disconnect_account : ℕ → Bool → Action Bool
  unfolding get_status get_decrypted_access_token delete_link
  disconnect_account user_id revoke = do
    found ← get_status user_id
    option_case found (pure false) (λ l. do
      token ← get_decrypted_access_token l
      if revoke && is_some (truthy_text token)
          then (do answer ← request {A = Json} (λ n. no_reply); delete_link l.id; pure true)
          else (do delete_link l.id; pure true))

-- `list_sync_candidates`: the least recently updated links first.
abbrev sync_before : ExternalAccountLink → ExternalAccountLink → Bool
sync_before k l = ltb k.updated_at l.updated_at || (k.updated_at == l.updated_at && leb k.id l.id)

unfoldable pub sort_links : List ExternalAccountLink → List ExternalAccountLink
unfolding sort_by
sort_links = sort_by sync_before

abbrev is_active_user : Option User → Bool
is_active_user none = false
is_active_user (some u) = u.is_active

abbrev pub is_sync_candidate : List User → ExternalAccountLink → Bool
is_sync_candidate users l =
    provider_eq l.provider discogs
    && not (text_eq l.external_user_id (codes "pending"))
    && is_some l.access_token
    && is_active_user (find_user l.user_id users)

-- `max(limit, 0)` of a natural number is the number.
unfoldable pub list_sync_candidates : ℕ → Action (List ExternalAccountLink)
unfolding sort_links
list_sync_candidates limit =
    gets (λ w. take limit (sort_links (keep (is_sync_candidate w.users) w.links)))
