-- ===== src/WatchReleases/Examples.antt =====
-- A watch that leaves the mode of its master, and a new one.
use wax_watch_api.Prelude.{refl, none, some, true}
use wax_watch_api.Prelude.Text.{codes, text_eq}
use wax_watch_api.Session.Keeps.{Holds}
use wax_watch_api.WatchReleases.{
  NewRelease, ReleaseUpdate, no_update, create_watch_release, update_watch_release,
  disable_watch_release,
}
use wax_watch_api.WatchReleases.Master.{HasMaster, AllMastered, masters_kept}
use wax_watch_api.Samples.{environment, world}

abbrev wanted : NewRelease
wanted = record {
  discogs_release_id = 800;
  discogs_master_id = some 80;
  match_mode = codes "master_release";
  title = codes "Blue Train";
  artist = none;
  year = none;
  target_price = none;
  currency = codes "usd";
  min_condition = none;
  is_active = true;
}

abbrev exact : ReleaseUpdate
exact = record no_update { match_mode = some (codes "exact_release") }

world-AllMastered : Holds AllMastered world
unfolding HasMaster text_eq
world-AllMastered = record { here = record { mastered = (refl, tt) }; elsewhere = (λ t h. h, tt) }

masters_kept_example :
    Holds AllMastered (create_watch_release environment 1 wanted world).1
    × Holds AllMastered (update_watch_release environment 1 30 exact world).1
    × Holds AllMastered (disable_watch_release environment 1 30 world).1
masters_kept_example = masters_kept environment 1 30 wanted exact world world-AllMastered
