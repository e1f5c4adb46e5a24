-- ===== src/Services/BlobCalls.antt =====
-- src/services/blob.rs: the handlers over the pool of blobs. `instant` is the time that the file system
-- gives a file.
use saros.Base.{ℕ, Option, none, some, length, Text, ok, err}
use saros.Store.Names.{Sha256Hex, parse_sha}
use saros.Store.State.{Bytes, Faults}
use saros.Store.Blobs.{DownloadOutcome, put_blob, stat_blob}
use saros.Store.Download
use saros.Db.Stats.{bump_download}
use saros.Events
use saros.Services.Wire.{not_there, of_store}
use saros.Services.Depot.{Depot, Stock, Reply, signed_in_reply}
use saros.Services.Firmware.{with_world}

module _ (D : Depot) where
  open D use {backend, env}

  -- record_download: a failure is logged, and no more.
  unfoldable pub record_download : Text → Stock D → Stock D
  record_download sha s = record s {
    counts = (bump_download D.counts D.counts_ends sha s.counts).1;
  }

  unfoldable pub upload_for : Faults → ℕ → Bytes → Stock D → Reply D (Sha256Hex × ℕ)
  upload_for fails instant content s =
      let pooled = put_blob env D.max_blob_bytes fails instant content s.store in
      let s' = record s { store = pooled.1 } in
      elim pooled.0 [
        | err e ↦ (err (of_store e), s')
        | ok sha ↦ (
          ok (sha, length content),
          with_world D
              (λ w. record w {
                events =
                    Events.upload backend.trail backend.trail_order backend.trail_keys
                      backend.action_number w.events;
              })
              s',
        )
      ]

  -- upload
  unfoldable pub upload : Faults → ℕ → ℕ → Option Text → Bytes → Stock D → Reply D (Sha256Hex × ℕ)
  upload fails instant now credential content s =
      signed_in_reply D now credential (λ c t. upload_for fails instant content t) s

  unfoldable pub stat_for : Faults → Text → Stock D → Reply D (Option ℕ)
  stat_for fails typed s = elim (parse_sha typed) [
    | err e ↦ (err (of_store e), s)
    | ok sha ↦ elim (stat_blob env fails s.store sha) [
      | err e ↦ (err (of_store e), s)
      | ok size ↦ (ok size, s)
    ]
  ]

  -- stat
  unfoldable pub stat : Faults → ℕ → Option Text → Text → Stock D → Reply D (Option ℕ)
  stat fails now credential typed s =
      signed_in_reply D now credential (λ c t. stat_for fails typed t) s

  unfoldable pub served : Text → DownloadOutcome → Stock D → Reply D DownloadOutcome
  served typed out s = (
    ok out,
    record_download typed (
        with_world D
          (λ w. record w {
            events =
                Events.download backend.trail backend.trail_order backend.trail_keys
                  backend.action_number w.events;
          })
          s),
  )

  unfoldable pub download_for : Faults → Text → Stock D → Reply D DownloadOutcome
  download_for fails typed s = elim (parse_sha typed) [
    | err e ↦ (err (of_store e), s)
    | ok sha ↦
        (let got = Download.download env D.objects fails s.store s.mirror sha in
          let s' = record s { mirror = got.1 } in
          elim got.0 [
            | err e ↦ (err (of_store e), s')
            | ok none ↦ (err not_there, s')
            | ok (some out) ↦ served typed out s'
          ])
  ]

  -- download
  unfoldable pub download : Faults → ℕ → Option Text → Text → Stock D → Reply D DownloadOutcome
  download fails now credential typed s =
      signed_in_reply D now credential (λ c t. download_for fails typed t) s
