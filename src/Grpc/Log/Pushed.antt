-- ===== src/Grpc/Log/Pushed.antt =====
-- Logs that agents push over gRPC, in the buffer of the local service.
use mathlib.Core.List.{append-nil}
use reinhardt_cloud.Base.{String, true, List, [], ◌∷◌, ◌++◌, map, ◌≡◌, refl, ap, sym, ◌∙◌}
use reinhardt_cloud.Base.Result.{Result, ok, err}
use reinhardt_cloud.Types.Log.{LogEntry}
use reinhardt_cloud.Core.Log.Defs.{LogBuffer, Received, push, tail_logs, list_logs}
use reinhardt_cloud.Core.Log.Ring.{push_all}
use reinhardt_cloud.Grpc.Wire.{Wire, IsLawful, Status, status_internal, StatusResponse}
use reinhardt_cloud.Grpc.Log.Codec.{
  PbLogEntry, JsonText, domain_entry_to_proto, entries_to_domain, arrived, entry_roundtrip,
}
use reinhardt_cloud.Grpc.Log.Server.{LogService, serve_push_logs}

-- `LocalLogService`; `received` is what the receiver of a later `tail_logs` will be handed
abbrev pub local_service : {Json : Type 0} → List (Received Json) → LogService Json (LogBuffer Json)
local_service received = record {
  push_logs = λ buf es. (push buf es, ok tt);
  tail_logs = λ buf f. ok (map ok (tail_logs f received));
  list_logs = λ buf f params. ok (list_logs buf f params);
}

module _ (w : Wire) (law : IsLawful w) {Json : Type 0} (json : JsonText Json) where
  -- batches as an agent sends them
  abbrev pub sent : List (List (LogEntry Json)) → List (Result (List PbLogEntry) String)
  sent bs = map (λ b. ok (map (domain_entry_to_proto w json) b)) bs

  -- and as they arrive
  abbrev pub read : List (List (LogEntry Json)) → List (List (LogEntry Json))
  read bs = map (λ b. map (arrived w law json) b) bs

  entries_roundtrip :
      (es : List (LogEntry Json))
      → entries_to_domain w json (map (domain_entry_to_proto w json) es)
        ≡ ok (map (arrived w law json) es)
  unfolding entries_to_domain
  entries_roundtrip [] = refl
  entries_roundtrip (e ∷ es) = rw (entry_roundtrip w law json e, entries_roundtrip es) refl

  module _ (received : List (Received Json)) where
    abbrev serve :
        LogBuffer Json
        → List (Result (List PbLogEntry) String)
        → LogBuffer Json × Result StatusResponse Status
    serve = serve_push_logs w json (local_service received)

    serve-sent :
        (buf : LogBuffer Json) (bs : List (List (LogEntry Json)))
        (rest : List (Result (List PbLogEntry) String))
        → serve buf (sent bs ++ rest) ≡ serve (push_all buf (read bs)) rest
    unfolding serve_push_logs
    serve-sent buf [] rest = refl
    serve-sent buf (b ∷ bs) rest =
        rw (entries_roundtrip b, serve_push_logs)
          (serve-sent (push buf (map (arrived w law json) b)) bs rest)

    -- Given lawful conversions of times, the batches that an agent sends are pushed in order, and
    -- unchanged but for the metadata of an entry, which are what their JSON text is read as, or none
    -- if it cannot be read.
    -- Where the stream breaks off, with a batch that cannot be read or with an error of the
    -- transport, what came before is kept, nothing of that batch or after it is, and the agent gets
    -- the error.
    pub serve_push_logs-sent :
        (buf : LogBuffer Json) (bs : List (List (LogEntry Json))) (bad : List PbLogEntry)
        (e : Status) (lost : String) (rest : List (Result (List PbLogEntry) String))
        → entries_to_domain w json bad ≡ err e
        → (serve buf (sent bs) ≡ (
          push_all buf (read bs),
          ok (record { success = true; message = "Received {total} log entries" }),
        ))
          × (serve buf (sent bs ++ (ok bad ∷ rest)) ≡ (push_all buf (read bs), err e))
          × (serve buf (sent bs ++ (err lost ∷ rest))
              ≡ (push_all buf (read bs), err (status_internal lost)))
    unfolding serve_push_logs
    serve_push_logs-sent buf bs bad e lost rest h = (
      ap (serve buf) (sym (append-nil (sent bs))) ∙ serve-sent buf bs [],
      serve-sent buf bs (ok bad ∷ rest) ∙ (rw (h, serve_push_logs) refl),
      serve-sent buf bs (err lost ∷ rest),
    )
