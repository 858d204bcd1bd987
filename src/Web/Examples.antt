-- ===== src/Web/Examples.antt =====
-- A file with two equal addresses, a pool of two requests, the label of a started stream and an escaped
-- text.
use sms_app.Base.{
  ◌+◌, ◌*◌, ◌≤◌, max, String, true, false, none, some, List, [], ◌∷◌, ◌≡◌, refl, arith, length,
  count_by, nat_same, codes,
}
use sms_app.Web.Import.{
  Host, CameraRow, pull, Dialog, DialogEvent, stream_url, loaded, cell_edited, existing_loaded,
  handle_all,
}
use sms_app.Web.Import.Clean.{IsClean, handle_all-IsClean}
use sms_app.Web.Bulk.{
  worker_count, Pool, rejected, take_item, leave, settle, Reach, here, next, start,
}
use sms_app.Web.Bulk.Runners.{in_flight_bounds, every_item_settles}
use sms_app.Web.Bulk.Ends.{CanEnd, moves, runners_end}
use sms_app.Web.Labels.{Entry}
use sms_app.Web.Texts.{escape_html}
use sms_app.Web.Texts.Escape.{is_safe, shown, escape_html_lem}

abbrev host : Host
host = record { trim = λ s. s; lower = λ s. s; host_of = λ s. some "h"; is_number = λ s. true }

abbrev row : String → String → CameraRow
row name url = record {
  name = name;
  stream_url = url;
  tags = "";
  description = "";
  latitude = "";
  longitude = "";
  errors = [];
  duplicate = false;
  duplicate_reason = none;
  duplicate_field = none;
  ingest_mode = pull;
}

abbrev empty : Dialog
empty = record { rows = []; existing_urls = "rtsp://h/old" ∷ []; existing_names = [] }

abbrev events : List DialogEvent
events =
    loaded (row "Gate" "rtsp://h/1" ∷ row "Door" "rtsp://h/1" ∷ row "Yard" "rtsp://h/old" ∷ [])
    ∷ cell_edited 1 stream_url "rtsp://h/2"
    ∷ existing_loaded ("rtsp://h/2" ∷ []) []
    ∷ []

handle_all-IsClean_example : IsClean host (handle_all host events empty)
handle_all-IsClean_example = handle_all-IsClean host events empty (tt, refl)

abbrev one_left : Pool
one_left = record { cursor = 1; ready = 0; in_flight = 0 ∷ []; returned = 0; results = [] }

abbrev all_done : Pool
all_done = record {
  cursor = 2;
  ready = 0;
  in_flight = [];
  returned = 1;
  results = (0, rejected "no") ∷ [];
}

first_turn : Reach 1 (start 4 1) one_left
first_turn = next here (take_item (start 4 1) 0 refl (omega arith))

in_flight_bounds_example : (length one_left.in_flight ≤ max 4 1) × (length one_left.in_flight ≤ 1)
in_flight_bounds_example = in_flight_bounds 4 1 one_left first_turn

all_turns : Reach 1 (start 4 1) all_done
all_turns = next (next first_turn (settle one_left 0 (rejected "no") refl)) (
    leave
      (record {
        cursor = 1;
        ready = 1;
        in_flight = [];
        returned = 0;
        results = (0, rejected "no") ∷ [];
      })
      0 refl (omega arith))

every_item_settles_example : count_by (λ r. nat_same 0 r.0) all_done.results ≡ 1
every_item_settles_example = every_item_settles 4 1 all_done 0 all_turns (refl, refl) (omega arith)

runners_end_example : CanEnd 1 all_done × (moves all_turns ≤ 2 * 1 + worker_count 4 1)
runners_end_example = runners_end 4 1 all_turns

abbrev camera : String
camera = "0f8fad5b-d9cb-469f-a165-70867728950e"

abbrev started : Entry
started = record {
  method = "POST";
  path = "/api/cameras/0f8fad5b-d9cb-469f-a165-70867728950e/stream/start";
  action = "create";
  details = none;
}

escape_html_lem_example :
    (is_safe (escape_html (codes "<a href='x'>")) ≡ true)
    × (shown (length (escape_html (codes "<a href='x'>"))) (escape_html (codes "<a href='x'>"))
        ≡ codes "<a href='x'>")
escape_html_lem_example = escape_html_lem (codes "<a href='x'>")
