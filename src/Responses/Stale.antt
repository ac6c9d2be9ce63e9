-- ===== src/Responses/Stale.antt =====
-- A grid that the controller reports to server/main.py, as server/api/routes.py shows it and as
-- server/services/command_handler.py checks commands against it.
use vivarium_connection.Common.{
  ℕ, ◌≡◌, refl, ap, ◌∙◌, String, Bool, true, false, is_some, Option, some, List, [], ◌∷◌, Result,
  raised, Error,
}
use vivarium_connection.Common.Dict
use vivarium_connection.Common.Clock.{utc}
use vivarium_connection.Common.Text.{Text, codes}
use vivarium_connection.Models.{Float, Rack}
use vivarium_connection.State.{
  RackState, Mirror, Assign, upsert, refresh, assign_all, assign, grid_rows, grid_cols,
}
use vivarium_connection.Serial.{has_prefix}
use vivarium_connection.DeviceId.{to_int}
use vivarium_connection.Command.{validate_command}
use vivarium_connection.Handler.{Server, handle_command, dispatch_parsed}
use vivarium_connection.ScanEngine.{ScanEnv}
use vivarium_connection.Auth.{Authority, CurrentUser, granted, require_rack_operator}
use vivarium_connection.Websocket.Commands.{Site}
use vivarium_connection.Routes.{layout, layout_for, stored_layout, state_layout, get_rack_layout}
use vivarium_connection.Responses.Layout.{
  Board, search, rows_here, write_mirror, remember, on_rows, on_layout_response,
}

-- the mirror of the server, replaced
unfoldable pub with_mirror : Mirror → Server → Server
with_mirror mirror server = record server {
  engine = record server.engine {
    plant = record server.engine.plant {
      world = record server.engine.plant.world {
        store = record server.engine.plant.world.store { mirror = mirror };
      };
    };
  };
}

-- the mirror's entry behind a ROWS line
abbrev pub resized : ℕ → Text → Text → RackState → RackState
resized now rows cols state =
    refresh (utc now)
      (assign_all (grid_rows (some (to_int 0 rows)) ∷ grid_cols (some (to_int 0 cols)) ∷ []) state)

rows_response :
    (float : Text → Result Float) (now ttl_s : ℕ) (rack_id raw : String)
    (config : Option (List Assign)) (b : Board) (rows cols : Text) (state : RackState)
    → has_prefix (codes "{") (codes raw) ≡ false
    → has_prefix (codes "LIMITS") (codes raw) ≡ false
    → has_prefix (codes "ROWS") (codes raw) ≡ true
    → search rows_here (codes raw) ≡ some (rows, cols)
    → Dict.lookup rack_id b.mirror ≡ some state
    → Dict.lookup rack_id (on_layout_response float now ttl_s rack_id raw config b).mirror
      ≡ some (resized now rows cols state)
unfolding on_layout_response on_rows write_mirror remember upsert
rows_response float now ttl_s rack_id raw config b rows cols state e1 e2 e3 parsed known =
    rw (e1, e2, e3, parsed, on_rows)
      (Dict.lookup-insert_self rack_id _ b.mirror
        ∙ ap (λ s. some (resized now rows cols s)) (Dict.get_or-some rack_id b.mirror _ known))

resized-layout :
    (now : ℕ) (rows cols : Text) (state : RackState) (rack : Rack)
    → is_some state.pitch_x_mm ≡ true
    → stored_layout (some (resized now rows cols state)) rack
      ≡ record (state_layout state) { rows = some (to_int 0 rows); columns = some (to_int 0 cols) }
unfolding stored_layout state_layout refresh assign_all assign
resized-layout now rows cols state rack pitch = rw pitch refl

-- After a ROWS line of the controller the layout route shows the reported rows and columns, for a rack
-- whose pitch the mirror knows; a command that the rows and columns of the database refuse is still
-- refused.
pub on_layout_response-stale :
    (a : Authority) (senv : ScanEnv) (float : Text → Result Float) (db_ok : Bool) (now ttl_s : ℕ)
    (rack_id raw : String) (config : Option (List Assign)) (b : Board) (rows cols : Text)
    (state : RackState) (rack : Rack) (header : Option Text) (u : CurrentUser) (command : Text)
    (e : Error) (s : Site)
    → has_prefix (codes "{") (codes raw) ≡ false
    → has_prefix (codes "LIMITS") (codes raw) ≡ false
    → has_prefix (codes "ROWS") (codes raw) ≡ true
    → search rows_here (codes raw) ≡ some (rows, cols)
    → Dict.lookup rack_id b.mirror ≡ some state
    → is_some state.pitch_x_mm ≡ true
    → Dict.lookup rack_id s.server.engine.plant.world.store.racks ≡ some rack
    → require_rack_operator a rack_id header ≡ granted u
    → validate_command command rack.grid_rows rack.grid_cols ≡ raised e
    → let mirror = (on_layout_response float now ttl_s rack_id raw config b).mirror in
      let server = with_mirror mirror s.server in
      (get_rack_layout a rack_id header (record s { server = server })
        ≡ layout (record (state_layout state) {
          rows = some (to_int 0 rows);
          columns = some (to_int 0 cols);
        }))
      × (handle_command senv db_ok now rack_id command (some u.user_id) server ≡ (server, raised e))
unfolding with_mirror get_rack_layout layout_for handle_command dispatch_parsed
on_layout_response-stale a senv float db_ok now ttl_s rack_id raw config b rows cols state rack
      header u command e s e1 e2 e3 parsed known pitch found pass refused =
    (
      rw (pass, layout_for)
          (rw
            (
              found,
              rows_response float now ttl_s rack_id raw config b rows cols state e1 e2 e3 parsed
                  known,
              layout_for,
            )
            (ap layout (resized-layout now rows cols state rack pitch))),
      rw (found, handle_command) (rw (refused, dispatch_parsed) refl),
    )
