-- ===== src/Images/Duplicates.antt =====
-- Image messages that server/main.py takes for duplicates.
use vivarium_connection.Common.{
  ℕ, String, eq_refl, ◌≡◌, refl, sym, ap, ◌∙◌, subst, Bool, true, false, ◌||◌, Option, none, some,
  List, [], ◌∷◌, arith, Result, ok, raised,
}
use vivarium_connection.Common.Dict
use vivarium_connection.Locking.{contains}
use vivarium_connection.Cache.{
  Attributions, Attribution, consume_capture_attribution, consume, unexpired_operator,
}
use vivarium_connection.Queue.{Env}
use vivarium_connection.Plant.{Plant, audit}
use vivarium_connection.Images.{
  ImageMessage, ImageRecord, Gallery, same_text, taken, known_user, insertable, record_of,
  write_image, attributed, on_image_message,
}

-- No image is stored, the racks, locks and queues stay as they are, and no client is told.
pub record IsIgnored (g g' : Gallery) : Type 0 where
  pub images : g'.images ≡ g.images
  pub world : g'.plant.world ≡ g.plant.world
  pub hub : g'.hub ≡ g.hub

-- An image at the path of the message is stored.
unfoldable pub stored : ImageMessage → List ImageRecord → Bool
stored m [] = false
stored m (q ∷ rest) =
    (same_text q.s3_key m.s3_key || same_text q.local_path m.local_path) || stored m rest

taken-record_of :
    (rack_id : String) (m : ImageMessage) (o : Option String) (images : List ImageRecord)
    → taken (record_of rack_id m o) images ≡ stored m images
unfolding taken stored record_of
taken-record_of rack_id m o [] = refl
taken-record_of rack_id m o (q ∷ rest) =
    let below = taken-record_of rack_id m o rest in rw below refl

write_image-IsIgnored :
    (env : Env) (alive : ℕ → Bool) (now : ℕ) (rack_id : String) (m : ImageMessage)
    (o : Option String) (g : Gallery)
    → insertable g.plant g.images (record_of rack_id m o) ≡ false
    → IsIgnored g (write_image env alive now rack_id m o g)
unfolding write_image audit
write_image-IsIgnored env alive now rack_id m o g e =
    rw e (record { images = refl; world = refl; hub = refl })

insertable-stored :
    (p : Plant) (rack_id : String) (m : ImageMessage) (o : Option String)
    (images : List ImageRecord)
    → stored m images ≡ true
    → insertable p images (record_of rack_id m o) ≡ false
unfolding insertable
insertable-stored p rack_id m o images e = rw (taken-record_of rack_id m o images, e) (ground arith)

attributed-IsIgnored :
    (env : Env) (alive : ℕ → Bool) (now : ℕ) (rack_id : String) (m : ImageMessage) (g : Gallery)
    (x : Attributions × Result (Option String))
    → stored m g.images ≡ true
    → IsIgnored g (attributed env alive now rack_id m g x)
unfolding attributed
attributed-IsIgnored env alive now rack_id m g (table, raised e) h = record {
  images = refl;
  world = refl;
  hub = refl;
}
attributed-IsIgnored env alive now rack_id m g (table, ok o) h =
    let ignored =
      write_image-IsIgnored env alive now rack_id m o (record g { attributions = table })
        (insertable-stored g.plant rack_id m o g.images h) in
    record { images = ignored.images; world = ignored.world; hub = ignored.hub }

-- A message about an image whose path is stored already, by whatever rack and at whatever time, stores
-- no image, releases no lock, and tells no client, whatever the attribution.
pub on_image_message-IsIgnored :
    (env : Env) (alive : ℕ → Bool) (valid : Bool) (now : ℕ) (rack_id : String) (m : ImageMessage)
    (g : Gallery)
    → stored m g.images ≡ true
    → IsIgnored g (on_image_message env alive valid now rack_id m g)
unfolding on_image_message audit
on_image_message-IsIgnored env alive false now rack_id m g h = record {
  images = refl;
  world = refl;
  hub = refl;
}
on_image_message-IsIgnored env alive true now rack_id m g h =
    attributed-IsIgnored env alive now rack_id m g
      (consume_capture_attribution now rack_id g.attributions) h

insertable-unknown :
    (p : Plant) (rack_id u : String) (m : ImageMessage) (images : List ImageRecord)
    → contains p.world.store.users u ≡ false
    → insertable p images (record_of rack_id m (some u)) ≡ false
unfolding insertable known_user record_of
insertable-unknown p rack_id u m images e = rw e (ground arith)

consume-found :
    (now : ℕ) (rack_id : String) (table : Attributions) (row : Attribution) (o : Option String)
    → Dict.lookup rack_id table ≡ some row
    → unexpired_operator now row ≡ ok o
    → consume_capture_attribution now rack_id table ≡ (Dict.remove rack_id table, ok o)
unfolding consume_capture_attribution consume
consume-found now rack_id table row o found valid =
    rw (found, consume_capture_attribution) (ap (consume rack_id table) valid)

attributed-lost :
    (env : Env) (alive : ℕ → Bool) (now : ℕ) (rack_id u : String) (m : ImageMessage) (g : Gallery)
    (table : Attributions)
    → contains g.plant.world.store.users u ≡ false
    → let g' = attributed env alive now rack_id m g (table, ok (some u)) in
      IsIgnored g g'
      × (g'.attributions ≡ table)
      × (g'.plant ≡ audit "duplicate_image_notification" rack_id "flagged" g.plant)
unfolding attributed write_image audit
attributed-lost env alive now rack_id u m g table unknown =
    rw (insertable-unknown g.plant rack_id u m g.images unknown)
      (record { images = refl; world = refl; hub = refl }, refl, refl)

-- The image of a capture that is attributed to an unknown user, such as the "" of a command without a
-- user, and whose expiry is read back with its zone and has not come, is taken for a duplicate: that is
-- what the audit says, it is not stored, no lock is released, no client is told, and the attribution is
-- gone.
pub on_image_message-lost :
    (env : Env) (alive : ℕ → Bool) (now : ℕ) (rack_id u : String) (m : ImageMessage) (g : Gallery)
    (row : Attribution)
    → Dict.lookup rack_id g.attributions ≡ some row
    → unexpired_operator now row ≡ ok (some u)
    → contains g.plant.world.store.users u ≡ false
    → let g' = on_image_message env alive true now rack_id m g in
      IsIgnored g g'
      × (Dict.lookup rack_id g'.attributions ≡ none)
      × (g'.plant ≡ audit "duplicate_image_notification" rack_id "flagged" g.plant)
unfolding on_image_message
on_image_message-lost env alive now rack_id u m g row found valid unknown =
    let table = Dict.remove rack_id g.attributions in
    let (ignored, removed, audited) = attributed-lost env alive now rack_id u m g table unknown in
    subst
      (λ (x : Attributions × Result (Option String)).
        IsIgnored g (attributed env alive now rack_id m g x)
        × (Dict.lookup rack_id (attributed env alive now rack_id m g x).attributions ≡ none)
        × ((attributed env alive now rack_id m g x).plant
            ≡ audit "duplicate_image_notification" rack_id "flagged" g.plant))
      (sym (consume-found now rack_id g.attributions row (some u) found valid))
      (
        ignored,
        ap (Dict.lookup rack_id) removed
            ∙ Dict.lookup-remove rack_id rack_id g.attributions
            ∙ rw (eq_refl rack_id) refl,
        audited,
      )
