-- ===== src/Start/Lifecycle.antt =====
-- cmd/server/main.go: the states of the database that requests and passes of the worker lead to, one
-- at a time and in any order, from empty tables.
use device_telemetry_ro.Prelude.{All, ℕ, ◌≡◌, true, Option, List, [], ◌∷◌}
use device_telemetry_ro.Prelude.Int.{ℤ}
use device_telemetry_ro.Prelude.Bytes.{Bytes}
use device_telemetry_ro.Domain.{Time, DeliveryRecord}
use device_telemetry_ro.Domain.Errors.{Result}
use device_telemetry_ro.External.{External}
use device_telemetry_ro.Parser.{ParseError}
use device_telemetry_ro.Db.{Tables, Sequences, World, world}
use device_telemetry_ro.Db.Keeps.{Keeps, query-Keeps, pure-Keeps, bind-Keeps}
use device_telemetry_ro.Store.Deliveries.{list_due_deliveries}
use device_telemetry_ro.Store.Lifecycle.{
  in_order, InOrder, update_event_status-Keeps, mark_delivered-Keeps, mark_dead-Keeps,
  mark_failed-Keeps,
}
use device_telemetry_ro.Worker.{Options, DispatchPayload, dispatch_all, process_once}
use device_telemetry_ro.Worker.Marks.{MarksKeep, dispatch_one-Keeps}
use device_telemetry_ro.Auth.{KeyMap}
use device_telemetry_ro.Http.{Request}
use device_telemetry_ro.Http.Handlers.{Env, Codec}
use device_telemetry_ro.Http.Server.{Mux, Static, serve}
use device_telemetry_ro.Http.Lifecycle.{KeepsOrder, serve-KeepsOrder}

abbrev pub no_rows : Tables
no_rows = record {
  devices = [];
  raws = [];
  events = [];
  rules = [];
  changes = [];
  deliveries = [];
  audits = [];
}

module _ (ext : External) (text_of : ParseError → Bytes) (window : ℤ) (codec : Codec)
    (static : Static) (mux : Mux) (keys : Option KeyMap) (marshal : DispatchPayload → Result Bytes)
    (opts : Options) where
  pub data Reachable : World → Type 0 where
    empty : (s : Sequences) (faults : List (Option Bytes)) → Reachable (world no_rows s faults)
    request :
        (metrics : Bytes) (env : Env) (r : Request) (w : World)
        → Reachable w
        → Reachable (serve ext text_of window codec static mux metrics env keys r w).1
    pass :
        (sink : ℕ → Bytes → Bytes → Option Bytes) (now : Time) (w : World)
        → Reachable w
        → Reachable (process_once marshal sink opts now w).1

  marks : (d : DeliveryRecord) → MarksKeep InOrder opts.max_attempt d
  marks d = record {
    delivered = mark_delivered-Keeps d.id;
    dead = mark_dead-Keeps d.id;
    failed = λ attempt text next h. mark_failed-Keeps d.id attempt text next;
    advanced = update_event_status-Keeps;
  }

  dispatch_all-Keeps :
      (sink : ℕ → Bytes → Bytes → Option Bytes) (now : Time) (ds : List DeliveryRecord)
      → Keeps InOrder (dispatch_all marshal sink opts now ds)
  unfolding dispatch_all
  dispatch_all-Keeps sink now [] = pure-Keeps InOrder tt
  dispatch_all-Keeps sink now (d ∷ ds) =
      bind-Keeps InOrder _ _ (dispatch_one-Keeps InOrder opts d (marks d) marshal sink now)
        (λ _. dispatch_all-Keeps sink now ds)

  process_once-Keeps :
      (sink : ℕ → Bytes → Bytes → Option Bytes) (now : Time)
      → Keeps InOrder (process_once marshal sink opts now)
  unfolding process_once list_due_deliveries
  process_once-Keeps sink now =
      bind-Keeps InOrder _ _ (query-Keeps InOrder _) (dispatch_all-Keeps sink now)

  -- In every state that requests and passes of the worker lead to from empty tables, whatever they are
  -- and whichever statements the database fails: each pending or failed delivery has a time for its
  -- next try and no pending one has been tried; each dispatched delivery has been tried; and each
  -- dispatched or dead one has the time when it was settled and none for a next try.
  pub Reachable-InOrder :
      (w : World) → Reachable w → All (λ d. in_order d ≡ true) w.tables.deliveries
  unfolding InOrder KeepsOrder Keeps
  Reachable-InOrder w (empty s faults) = tt
  Reachable-InOrder w (request metrics env r v p) =
      serve-KeepsOrder ext text_of window codec env static mux metrics keys r v
        (Reachable-InOrder v p)
  Reachable-InOrder w (pass sink now v p) = process_once-Keeps sink now v (Reachable-InOrder v p)
