-- ===== src/Images/Told.antt =====
-- What the browsers are sent when an image arrives, by server/main.py and server/api/websocket.py.
use vivarium_connection.Common.{
  ℕ, ◌≡◌, String, str_eq, Bool, true, false, ◌&&◌, Option, some, List, [], ◌++◌, All, Error, ok,
  raised,
}
use vivarium_connection.Common.Text.{Text}
use vivarium_connection.Cache.{consume_capture_attribution}
use vivarium_connection.Images.{ImageMessage, Gallery, record_of, insertable}
use vivarium_connection.Websocket.{WsConnection, WsMessage, capture_complete, follows, receives}
use vivarium_connection.Websocket.Registry.{keep, addressed}

-- No viewer's connection, which has subscribed to the rack or to none, and is the operator's, where one
-- is named.
pub record IsEntitled (rack_id : String) (operator : Option String) (c : WsConnection)
    : Type 0 where
  pub no_viewer : str_eq c.role "viewer" ≡ false
  pub follows_rack : follows rack_id c.rack_ids ≡ true
  pub is_operator : (u : String) → operator ≡ some u → str_eq u "" ≡ false → c.user_id ≡ u

-- Whom the result goes to: nobody, if the message is invalid, if the cache raises an exception, or if
-- the row is refused; if the image is stored, every connection of the list, in its order, that may
-- receive the result of the consumed operator and whose socket works, and each is entitled to it.
pub data Told (alive : ℕ → Bool) (valid : Bool) (now : ℕ) (rack_id : String) (m : ImageMessage)
    (g : Gallery) (live : List ℕ) : List ℕ → Type 0 where
  invalid : valid ≡ false → Told alive valid now rack_id m g live []
  failed :
      (e : Error)
      → (consume_capture_attribution now rack_id g.attributions).1 ≡ raised e
      → Told alive valid now rack_id m g live []
  refused :
      (o : Option String)
      → (consume_capture_attribution now rack_id g.attributions).1 ≡ ok o
      → insertable g.plant g.images (record_of rack_id m o) ≡ false
      → Told alive valid now rack_id m g live []
  told :
      (o : Option String) (is : List ℕ)
      → (consume_capture_attribution now rack_id g.attributions).1 ≡ ok o
      → insertable g.plant g.images (record_of rack_id m o) ≡ true
      → is ≡ keep (λ i. receives rack_id o true (g.hub.conn i) && alive i) live
      → All (λ i. IsEntitled rack_id o (g.hub.conn i)) is
      → Told alive valid now rack_id m g live is

abbrev pub result : String → ImageMessage → WsMessage
result rack_id m =
    capture_complete rack_id m.local_path m.s3_key m.sha256_checksum m.cell_row m.cell_col

-- The messages of a handler, and whom they went to.
abbrev Tells : (ℕ → Bool) → Bool → ℕ → String → ImageMessage → Gallery → Gallery → Type 0
Tells alive valid now rack_id m g g' =
    (is : List ℕ) × (g'.hub.sent ≡ g.hub.sent ++ addressed (result rack_id m) is)
    × Told alive valid now rack_id m g g.hub.connections is
