-- ===== src/Db/Favorites/Tests.antt =====
-- Music as a favorite.
use strife.Base.{◌≡◌, refl, [], ◌∷◌}
use strife.Base.Result.{ok}
use strife.Db.Schema.{Db}
use strife.Db.Samples.{three_folders, db_of}
use strife.Db.Favorites.{add_favorite}

abbrev starred : Db
starred = record (db_of three_folders) { favorites = record { node_id = 2; created_at = 100 } ∷ [] }

music_starred : add_favorite 2 100 (db_of three_folders) ≡ ok (tt, starred)
unfolding add_favorite
music_starred = refl
