-- ===== src/Handlers/Construction.antt =====
-- The constructors of internal/writer/httpserver/handlers.go.
use pulsar_notifcation_pipel.Base.{apply_all, List, Option, none, some, Text, ascii}
use pulsar_notifcation_pipel.GoError.{nil, new, Error}
use pulsar_notifcation_pipel.Http.{get_header}
use pulsar_notifcation_pipel.Handlers.{Request, Handlers}
use pulsar_notifcation_pipel.Ingest.{Ingester}

pub record HandlersDraft (P : Type 0) : Type 0 where
  pub ingester : Option (Ingester P)
  pub request_id : Option (Request → Text)

abbrev pub HandlerOption : Type 0 → Type 0
HandlerOption P = HandlersDraft P → HandlersDraft P

module _ {P : Type 0} where
  unfoldable pub with_ingester : Option (Ingester P) → HandlerOption P
  with_ingester i h = record h { ingester = i }

  unfoldable pub with_request_id_extractor : Option (Request → Text) → HandlerOption P
  with_request_id_extractor fn h = record h { request_id = fn }

  -- NewHandlers
  unfoldable pub new_handlers : List (HandlerOption P) → Option (Handlers P) × Error
  new_handlers opts =
      let h : HandlersDraft P = apply_all opts (record { ingester = none; request_id = none }) in
      elim h.ingester [
        | none ↦ (none, new (ascii "httpserver: WithIngester is required"))
        | some i ↦ (
          some (record {
            ingester = i;
            request_id = elim h.request_id [
              | none ↦ get_header (ascii "X-Request-Id")
              | some fn ↦ fn
            ];
          }),
          nil,
        )
      ]
