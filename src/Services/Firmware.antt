-- ===== src/Services/Firmware.antt =====
-- src/services/firmware.rs: the handlers over the catalogue, and what they tell whom.
use saros.Base.{
  ℕ, Bool, true, false, ◌==◌, ◌%◌, ◌^◌, ltb, if◌then◌else◌, Option, none, some, List, [], ◌∷◌, ◌++◌,
  keep, map, Text, text, text_eq, Outcome, ok, err,
}
use saros.Store.State.{Firmware, Faults}
use saros.Store.Catalog
use saros.Store.Reads
use saros.Auth.{username}
use saros.Db.Table.{DbError}
use saros.Db.Inbox.{set_follow, followers, follows_of}
use saros.Db.Submissions.{record_submission, mark}
use saros.Db.Stats.{MetricsSampleRecord, history}
use saros.Db.Audit.{AuditRecord, page}
use saros.Events.{submitted, reviewed}
use saros.Services.Wire.{
  invalid, not_there, of_store, of_db, AuditCategory, AuditEntry, audit_entry, audit_matches,
}
use saros.Services.World.{
  World, notify, NotificationKind, submission_approved, submission_rejected, new_firmware,
}
use saros.Services.Depot.{
  SubmissionStatus, approved, rejected, Depot, Stock, Reply, signed_in_reply, admin_only,
}

abbrev pub or_blank : Option Text → Text
or_blank none = []
or_blank (some t) = t

-- The wire's AuditCategory, as a request has it
pub data AskedCategory : Type 0 where
  unspecified_category : AskedCategory
  asked : AuditCategory → AskedCategory

abbrev pub wanted_category : Option AskedCategory → Option AuditCategory
wanted_category (some (asked c)) = some c
wanted_category _ = none

abbrev pub wanted_actor : Option Text → Option Text
wanted_actor none = none
wanted_actor (some a) = if text_eq a [] then none else some a

-- The limit of list_audit_log: 100 where none is asked for, and at most 1,000.
abbrev pub page_limit : ℕ → ℕ
page_limit n = if n == 0 then 100 else if ltb n 1000 then n else 1000

module _ (D : Depot) where
  open D use {backend, env}

  abbrev pub with_world : (World backend → World backend) → Stock D → Stock D
  with_world f s = record s { world = f s.world }

  -- record_submission: a failure is logged, and no more.
  unfoldable pub record_sent : Text → Text → Text → ℕ → Stock D → Stock D
  record_sent who device version now s = record s {
    submissions =
        (record_submission D.submissions D.submissions_order who device version now
          s.submissions).1;
  }

  -- mark_submission: a failure is logged, and no more.
  unfoldable pub mark_submission : Text → Text → Text → SubmissionStatus → ℕ → Stock D → Stock D
  mark_submission who device version status now s = record s {
    submissions =
        (mark D.submissions who device version (D.status_number status % 2 ^ 8) now
          s.submissions).1;
  }

  unfoldable pub told_submitted : Text → Text → Text → ℕ → Stock D → Stock D
  told_submitted who device version now s = record_sent who device version now (
      with_world
        (λ w. record w {
          events =
              submitted backend.trail backend.trail_order backend.trail_keys backend.action_number
                who device version now w.events;
        })
        s)

  unfoldable pub publish_for : Faults → ℕ → Option Firmware → Text → Stock D → Reply D Firmware
  publish_for fails now none who s = (err invalid, s)
  publish_for fails now (some fw) who s =
      let staged = Catalog.stage env fails s.store fw who in
      let s' = record s { store = staged.1 } in
      elim staged.0 [
        | err e ↦ (err (of_store e), s')
        | ok held ↦
            (ok held, told_submitted who (or_blank held.device_id) (or_blank held.version) now s')
      ]

  -- publish_firmware
  unfoldable pub publish_firmware :
      Faults → ℕ → Option Text → Option Firmware → Stock D → Reply D Firmware
  publish_firmware fails now credential fw s =
      signed_in_reply D now credential (λ c t. publish_for fails now fw (username c) t) s

  abbrev pub told_of : Text → NotificationKind → Text → Text → Text → ℕ → Stock D → Stock D
  told_of who kind title detail link now s =
      with_world (notify backend who kind title detail link now) s

  abbrev pub is_submitter : Option Text → Text → Bool
  is_submitter none follower = false
  is_submitter (some who) follower = text_eq who follower

  -- The loop over the followers passes by the submitter.
  unfoldable pub tell_followers : Option Text → List Text → Text → Text → ℕ → Stock D → Stock D
  tell_followers submitter [] detail link now s = s
  tell_followers submitter (f ∷ fs) detail link now s =
      tell_followers submitter fs detail link now (
        if is_submitter submitter f
        then s
        else told_of f new_firmware (text "New firmware") detail link now s)

  unfoldable pub tell_submitter :
      Option Text → NotificationKind → Text → Text → Text → ℕ → Stock D → Stock D
  tell_submitter none kind title detail link now s = s
  tell_submitter (some who) kind title detail link now s = told_of who kind title detail link now s

  unfoldable pub tell_approved : Option Text → Text → Text → ℕ → Stock D → Stock D
  tell_approved submitter device version now s =
      let link = text "/saros/" ++ device ++ text "/" ++ version in
      let s' =
        tell_submitter submitter submission_approved (text "Firmware approved")
          (device ++ text " " ++ version ++ text " is now live") link now s in
      elim (followers D.follows device s'.follows) [
        | err e ↦ s'
        | ok fs ↦
            tell_followers submitter fs (device ++ text " " ++ version ++ text " was published")
              link now s'
      ]

  unfoldable pub marked : Option Text → Text → Text → SubmissionStatus → ℕ → Stock D → Stock D
  marked none device version status now s = s
  marked (some who) device version status now s = mark_submission who device version status now s

  unfoldable pub told_reviewed : Text → Text → Text → Bool → ℕ → Stock D → Stock D
  told_reviewed who device version approve now s =
      with_world
        (λ w. record w {
          events =
              reviewed backend.trail backend.trail_order backend.trail_keys backend.action_number
                who (device ++ text "/" ++ version) approve now w.events;
        })
        s

  unfoldable pub review_for :
      Faults → ℕ → Text → Text → Bool → Text → Stock D → Reply D (Option Firmware)
  review_for fails now device version true who s =
      let submitter = Reads.staged_submitter env s.store device version in
      let reviewed_store = Catalog.approve env fails s.store device version in
      let s' = record s { store = reviewed_store.1 } in
      elim reviewed_store.0 [
        | err e ↦ (err (of_store e), s')
        | ok fw ↦ (
          ok (some fw),
          marked submitter device version approved now (
              tell_approved submitter device version now
                (told_reviewed who device version true now s')),
        )
      ]
  review_for fails now device version false who s =
      let submitter = Reads.staged_submitter env s.store device version in
      let reviewed_store = Catalog.reject env fails s.store device version in
      let s' = record s { store = reviewed_store.1 } in
      elim reviewed_store.0 [
        | err e ↦ (err (of_store e), s')
        | ok done ↦ (
          ok none,
          marked submitter device version rejected now (
              tell_submitter submitter submission_rejected (text "Firmware not accepted")
                (device ++ text " " ++ version ++ text " wasn't approved") (text "/account") now
                (told_reviewed who device version false now s')),
        )
      ]

  -- review_staged_firmware
  unfoldable pub review_staged_firmware :
      Faults → ℕ → Option Text → Text → Text → Bool → Stock D → Reply D (Option Firmware)
  review_staged_firmware fails now credential device version approve s =
      admin_only D now credential
        (λ c t. review_for fails now device version approve (username c) t) s

  abbrev pub followed : Bool → Outcome DbError (Unit {0}) × D.follows.State → Stock D → Reply D Bool
  followed follow (err e, t) s = (err (of_db e), record s { follows = t })
  followed follow (ok done, t) s = (ok follow, record s { follows = t })

  unfoldable pub follow_for : Text → Bool → Text → Stock D → Reply D Bool
  follow_for device true who s = elim (env.slots device) [
    | none ↦ (err not_there, s)
    | some _ ↦ followed true (set_follow D.follows who device true s.follows) s
  ]
  follow_for device false who s = followed false (set_follow D.follows who device false s.follows) s

  -- follow_device
  unfoldable pub follow_device : ℕ → Option Text → Text → Bool → Stock D → Reply D Bool
  follow_device now credential device follow s =
      signed_in_reply D now credential (λ c t. follow_for device follow (username c) t) s

  unfoldable pub follows_for : Text → Stock D → Reply D (List Text)
  follows_for who s = elim (follows_of D.follows who s.follows) [
    | err e ↦ (err (of_db e), s)
    | ok devices ↦ (ok devices, s)
  ]

  -- list_follows
  unfoldable pub list_follows : ℕ → Option Text → Stock D → Reply D (List Text)
  list_follows now credential s =
      signed_in_reply D now credential (λ c t. follows_for (username c) t) s

  unfoldable pub samples : Stock D → Reply D (List MetricsSampleRecord)
  samples s = elim (history D.series D.series_order s.series) [
    | err e ↦ (err (of_db e), s)
    | ok out ↦ (ok out, s)
  ]

  -- get_metrics_history
  unfoldable pub get_metrics_history :
      ℕ → Option Text → Stock D → Reply D (List MetricsSampleRecord)
  get_metrics_history now credential s = admin_only D now credential (λ c t. samples t) s

  abbrev pub entries_of : Option AuditCategory → List (ℕ × AuditRecord) → List AuditEntry
  entries_of category rows =
      keep (audit_matches none category)
        (map (λ (r : ℕ × AuditRecord). audit_entry backend.action_number r.1) rows)

  unfoldable pub audit_page :
      ℕ → ℕ → Option Text → Option AuditCategory → Stock D → Reply D (List AuditEntry × ℕ)
  audit_page before limit actor category s =
      elim (page backend.trail backend.trail_order before limit actor s.world.events.audit) [
        | err e ↦ (err (of_db e), s)
        | ok (rows, next_cursor) ↦ (ok (entries_of category rows, next_cursor), s)
      ]

  -- list_audit_log
  unfoldable pub list_audit_log :
      ℕ
      → Option Text
      → ℕ
      → ℕ
      → Option Text
      → Option AskedCategory
      → Stock D
      → Reply D (List AuditEntry × ℕ)
  list_audit_log now credential before limit actor category s =
      admin_only D now credential
        (λ c t.
          audit_page before (page_limit limit) (wanted_actor actor) (wanted_category category) t)
        s
