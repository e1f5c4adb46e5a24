-- ===== src/Services/Guarded.antt =====
-- The handlers of src/services/auth.rs that act for a signed-in caller, and what they do for others.
use saros.Base.{ℕ, ◌≡◌, ap, Bool, Option, none, some, Text, Outcome, ok, err}
use saros.Auth.{Caller, username, anonymous, require_signed_in}
use saros.Services.Wire.{ConnectError, of_refusal, unauthenticated}
use saros.Services.World.{Backend, World, caller_of, signed_in_only}
use saros.Services.Signing.{
  decide_for, create_for, revoke_for, revoke_others_for, decide_login, create_api_token,
  revoke_session, revoke_other_sessions,
}
use saros.Services.Accounts.{
  describe_for, list_for, begin_add_for, add_for, remove_for, email_for, mark_for, mark_all_for,
  describe_login, list_credentials, begin_add_credential, finish_add_credential, remove_credential,
  set_email, mark_notification_read, mark_all_notifications_read,
}

-- A call of such a handler, with what the random generators answer to it.
pub data Request : Type 0 where
  deciding : Option Text → ℕ → Text → Bool → Request
  describing : ℕ → Text → Request
  creating_token : Option Text → Text → Request
  listing_credentials : Request
  beginning_add : ℕ → ℕ → Option Text → Request
  finishing_add : Text → Text → Text → Request
  removing_credential revoking : Text → Request
  revoking_others : Request
  setting_email : Text → Request
  marking : ℕ → Request
  marking_all : Request

-- What an answer says, but for its value.
abbrev pub code_of : {A : Type 0} → Outcome ConnectError A → Option ConnectError
code_of (ok a) = none
code_of (err e) = some e

module _ (B : Backend) (now : ℕ) (credential : Option Text) where
  abbrev pub said : {A : Type 0} → Outcome ConnectError A × World B → Option ConnectError × World B
  said r = (code_of r.0, r.1)

  unfoldable pub handle : Request → World B → Option ConnectError × World B
  handle (deciding rng nanos code approve) w =
      said (decide_login B rng now nanos credential code approve w)
  handle (describing nanos code) w = said (describe_login B now nanos credential code w)
  handle (creating_token rng name) w = said (create_api_token B rng now credential name w)
  handle listing_credentials w = said (list_credentials B now credential w)
  handle (beginning_add nanos seed random) w =
      said (begin_add_credential B now nanos seed random credential w)
  handle (finishing_add flow answer label) w =
      said (finish_add_credential B now credential flow answer label w)
  handle (removing_credential id) w = said (remove_credential B now credential id w)
  handle (revoking id) w = said (revoke_session B now credential id w)
  handle revoking_others w = said (revoke_other_sessions B now credential w)
  handle (setting_email typed) w = said (set_email B now credential typed w)
  handle (marking id) w = said (mark_notification_read B now credential id w)
  handle marking_all w = said (mark_all_notifications_read B now credential w)

  refused :
      {A : Type 0} (body : Caller → World B → Outcome ConnectError A × World B) (w : World B)
      → caller_of B now credential w ≡ anonymous
      → signed_in_only B now credential body w ≡ (err unauthenticated, w)
  unfolding require_signed_in
  refused body w h =
      ap (λ c. elim (require_signed_in c) [ err e ↦ (err (of_refusal e), w) | ok done ↦ body c w ])
        h

  -- Whoever is not signed in is told so by each of these handlers, and changes nothing.
  pub handle_anonymous :
      (r : Request) (w : World B)
      → caller_of B now credential w ≡ anonymous
      → handle r w ≡ (some unauthenticated, w)
  unfolding handle decide_login describe_login create_api_token list_credentials
      begin_add_credential finish_add_credential remove_credential revoke_session
      revoke_other_sessions set_email mark_notification_read mark_all_notifications_read
  handle_anonymous (deciding rng nanos code approve) w h =
      ap said (refused (decide_for B rng now nanos code approve) w h)
  handle_anonymous (describing nanos code) w h =
      ap said (refused (λ c v. describe_for B nanos code v) w h)
  handle_anonymous (creating_token rng name) w h =
      ap said (refused (λ c v. create_for B rng now name (username c) v) w h)
  handle_anonymous listing_credentials w h =
      ap said (refused (λ c v. list_for B (username c) v) w h)
  handle_anonymous (beginning_add nanos seed random) w h =
      ap said (refused (λ c v. begin_add_for B nanos seed random (username c) v) w h)
  handle_anonymous (finishing_add flow answer label) w h =
      ap said (refused (λ c v. add_for B now flow answer label (username c) v) w h)
  handle_anonymous (removing_credential id) w h =
      ap said (refused (λ c v. remove_for B now id (username c) v) w h)
  handle_anonymous (revoking id) w h =
      ap said (refused (λ c v. revoke_for B now id (username c) v) w h)
  handle_anonymous revoking_others w h =
      ap said (refused (λ c v. revoke_others_for B now credential (username c) v) w h)
  handle_anonymous (setting_email typed) w h =
      ap said (refused (λ c v. email_for B now typed (username c) v) w h)
  handle_anonymous (marking id) w h = ap said (refused (λ c v. mark_for B id (username c) v) w h)
  handle_anonymous marking_all w h = ap said (refused (λ c v. mark_all_for B (username c) v) w h)
