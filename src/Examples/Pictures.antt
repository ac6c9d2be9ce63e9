-- ===== src/Examples/Pictures.antt =====
-- The theorems on the image and response messages of server/main.py.
use vivarium_connection.Common.{◌≡◌, refl, true, none, some, [], ◌∷◌}
use vivarium_connection.Common.Dict
use vivarium_connection.Common.Clock.{utc, gt}
use vivarium_connection.Locking.{contains}
use vivarium_connection.Cache.{Attribution, unexpired_operator}
use vivarium_connection.Images.{ImageMessage, Gallery, record_of, on_image_message}
use vivarium_connection.Images.Duplicates.{IsIgnored, on_image_message-lost}
use vivarium_connection.Examples.{env}
use vivarium_connection.Plant.{audit}
use vivarium_connection.Images.Told.{Told}
use vivarium_connection.Examples.Browsers.{hub}
use vivarium_connection.Examples.Engines.{held_engine}

abbrev picture : ImageMessage
picture = record {
  local_path = some "/images/rack-1/2024-06-14/rack-1-20240614T123456Z.jpg";
  s3_key = none;
  sha256_checksum = "00";
  cell_row = none;
  cell_col = none;
}

-- attributed to nobody until second 30
abbrev row : Attribution
row = record { operator_id = ""; expires_at = utc 30000000 }

abbrev gallery : Gallery
gallery = record {
  plant = held_engine.plant;
  attributions = ("rack-1", row) ∷ [];
  images = record_of "rack-1" picture none ∷ [];
  hub = hub;
}

abbrev empty_gallery : Gallery
empty_gallery = record gallery { images = [] }

on_image_message-lost_example :
    let g' = on_image_message env (λ i. true) true 9 "rack-1" picture empty_gallery in
    IsIgnored empty_gallery g'
    × (Dict.lookup "rack-1" g'.attributions ≡ none)
    × (g'.plant ≡ audit "duplicate_image_notification" "rack-1" "flagged" empty_gallery.plant)
unfolding Dict.lookup unexpired_operator contains gt
on_image_message-lost_example =
    on_image_message-lost env (λ i. true) 9 "rack-1" "" picture empty_gallery row refl refl refl

-- alice's capture; bob, a viewer, is sent the image and not the result
abbrev own_gallery : Gallery
own_gallery = record empty_gallery {
  attributions = ("rack-1", record { operator_id = "alice"; expires_at = utc 30000000 }) ∷ [];
}
