-- ===== src/Worker/Liveness/Analysing.antt =====
-- With a client that answers, a queued run gets to its analysis in four rounds of the worker.
use essentials_merchant.Base.{String, List, ◌≡◌, ok}
use essentials_merchant.Marketplace.{Bytes}
use essentials_merchant.Worker.{
  AmazonReportRequest, AmazonReportStatus, AmazonReportDocument, AmazonTransportObservation,
  AmazonReportsClient,
}

-- What the client answers: the request is accepted, the report is done at the first poll, and its
-- document is delivered. Each answer may carry observations.
abbrev pub Delivers : AmazonReportsClient → String → String → AmazonReportDocument → Bytes → Type 0
Delivers client report_id document_id document content =
    ((ask : AmazonReportRequest)
      → (os : List AmazonTransportObservation) × (client.create_report ask
          ≡ ok (record { value = report_id; observations = os })))
    × ((ask : AmazonReportRequest)
        → (os : List AmazonTransportObservation) × (client.get_report ask report_id
            ≡ ok (record { value = AmazonReportStatus.done document_id; observations = os })))
    × ((ask : AmazonReportRequest)
        → (os : List AmazonTransportObservation) × (client.get_report_document ask document_id
            ≡ ok (record { value = document; observations = os })))
    × ((os : List AmazonTransportObservation) × (client.download_document document
          ≡ ok (record { value = content; observations = os })))
