-- ===== src/Tests/Startup.antt =====
-- Origins with white space around them.
use hwala.Base.{◌≡◌, refl, some, [], ◌∷◌}
use hwala.Startup.{Origins, allowed_origins}
use hwala.Startup.Laws.{Padded, IsOrigin, allowed_origins-joined_origins}

abbrev shop : Padded
shop = record { before = ""; origin = "https://a"; behind = " " }

abbrev desk : Padded
desk = record { before = " "; origin = "b:1"; behind = "" }

shop-IsOrigin : IsOrigin shop
shop-IsOrigin = record {
  filled = tt;
  no_comma = (refl, (refl, (refl, (refl, (refl, (refl, (refl, (refl, (refl, tt)))))))));
  no_space = (refl, (refl, (refl, (refl, (refl, (refl, (refl, (refl, (refl, tt)))))))));
  before_space = tt;
  behind_space = (refl, tt);
}

desk-IsOrigin : IsOrigin desk
desk-IsOrigin = record {
  filled = tt;
  no_comma = (refl, (refl, (refl, tt)));
  no_space = (refl, (refl, (refl, tt)));
  before_space = (refl, tt);
  behind_space = tt;
}

allowed_origins-joined_origins_example :
    allowed_origins (some "https://a , b:1") (some "production")
    ≡ Origins.listed ("https://a" ∷ "b:1" ∷ [])
allowed_origins-joined_origins_example =
    allowed_origins-joined_origins shop (desk ∷ []) (some "production") shop-IsOrigin
      (desk-IsOrigin, tt)
