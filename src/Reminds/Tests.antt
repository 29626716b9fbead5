-- ===== src/Reminds/Tests.antt =====
-- Reminders at concrete registrations.
use claude_sessions.Prelude.{refl, some, true, false, ◌≡◌, List, String}
use claude_sessions.Sql.{fetch_one}
use claude_sessions.Reminds.{Codec, a_list, Reminds, RemindRequest, registration_of}
use claude_sessions.Reminds.Registering.{register_periodic_remind}
use claude_sessions.Reminds.Rounds.{RoundReading, remind_round, recover_remind_registrations}
use claude_sessions.Reminds.Backing.{IsFaithful, IsBacked}
use claude_sessions.Reminds.Recovery.{surviving, recovers_registrations}
use claude_sessions.Reminds.Runs.{
  nothing, Reach, starts, steps, registers, goes_round, Reach-IsBacked,
}

-- a list of texts as its own encoding
abbrev plain : Codec (List String)
plain = record {
  dumps = λ owners. owners;
  loads = λ owners. some (a_list owners);
  text_of = λ owners. "[]";
}

plain-IsFaithful : IsFaithful plain
plain-IsFaithful = record { reads_back = λ owners. refl; is_text = λ owners. refl }

-- em waits for a reply of s
abbrev request : RemindRequest
request = record {
  id = "r-1";
  target_session_id = "s";
  soft_threshold = 60;
  hard_threshold = 120;
  cancel_on_reply_session_id = some "em";
  persistent_tracking = false;
  merge_with_existing = false;
}

abbrev late : RoundReading
late = record {
  now = 100000000;
  is_alive = true;
  is_compacting = false;
  nudge_pending = false;
  remind_pending = false;
  track_remind_pending = λ owner. false;
}

abbrev registered : Reminds (List String)
registered = (register_periodic_remind plain 5 request (nothing plain)).0

abbrev reminded : Reminds (List String)
reminded = (remind_round late "s" registered).0

reminded-Reach : Reach plain reminded
unfolding fetch_one
reminded-Reach =
    steps (steps starts (registers 5 request (nothing plain) refl)) (goes_round late "s" registered)

Reach-IsBacked_example : IsBacked plain reminded
Reach-IsBacked_example = Reach-IsBacked plain plain-IsFaithful reminded-Reach

recovers_registrations_example :
    registration_of "s" (recover_remind_registrations plain (λ target. true) reminded)
    ≡ surviving plain (λ target. true) (registration_of "s" reminded)
recovers_registrations_example =
    recovers_registrations plain (λ target. true) reminded
      (Reach-IsBacked plain plain-IsFaithful reminded-Reach) "s"
