-- ===== src/Webhook/Tests.antt =====
-- Runs of the handler, and its theorems at concrete data.
use group_bridge.Base.{
  ◌≡◌, ◌≢◌, ◌↔◌, ◌<◌, refl, ℕ, number_eq, str_eq, Str, bytes, true, none, some, [], ◌∷◌, arith,
  length, ℤ, pos,
}
use group_bridge.Base.Map.{lookup, has, keep_if}
use group_bridge.Webhook.Events.{Envelope, Hint, classify}
use group_bridge.Webhook.Signature.{parse_int, valid_signature}
use group_bridge.Webhook.Handler.{
  Settings, HttpRequest, Readings, accepted, Handler, max_seen, examine, deliver, serve_http,
}
use group_bridge.Webhook.Classified.{IsTargeted, classify-IsTargeted}
use group_bridge.Webhook.Genuine.{IsGenuine}
use group_bridge.Webhook.Accepted.{remembered, IsNew, accepted_iff}
use group_bridge.Webhook.Replays.{IsBounded, serve_all, no_replay, replay_gap}

-- Thirty-two bytes.
abbrev word : Str
word = bytes "0123456789abcdef0123456789abcdef"

abbrev event : Envelope
event = record {
  spec_version = bytes "1.0";
  event_id = bytes "d1";
  occurred_at = [];
  realm_name = bytes "eng";
  resource_type = bytes "GROUP";
  operation_type = bytes "UPDATE";
  group_key = [];
  user_key = [];
}

abbrev settings : Settings
settings = record {
  realm = bytes "eng";
  max_skew = 300000000000;
  hmac = λ secret message. word;
  decode = λ body. some event;
}

-- Dated at 1200 s.
abbrev request : HttpRequest
request = record {
  is_post = true;
  body = some (bytes "{}");
  timestamp = bytes "1200";
  delivery = bytes "d1";
  signature = bytes "sha256=3031323334353637383961626364656630313233343536373839616263646566";
}

abbrev at : ℕ → Readings
at seconds = record {
  secret = some word;
  fresh_at = pos seconds;
  cutoff_at = pos seconds;
  seen_at = pos seconds;
}

abbrev empty : Handler
empty = record { seen = []; triggered = []; accepts = 0; rejects = 0 }

abbrev hint : Hint
hint = record {
  resource_type = bytes "GROUP";
  operation_type = bytes "UPDATE";
  group_key = [];
  user_key = [];
  global_repair = true;
}

-- The clock stands at 1000 s.
abbrev early : Readings
early = at 1000000000000

abbrev late : Readings
late = at 1400000000000

negative_time : parse_int (bytes "-12") ≡ some (ℤ.negsuc 11)
unfolding parse_int bytes number_eq
negative_time = refl

examined_early : examine settings early request request.body ≡ some hint
unfolding examine parse_int valid_signature classify bytes str_eq number_eq
examined_early = refl

examined_late : examine settings late request request.body ≡ some hint
unfolding examine parse_int valid_signature classify bytes str_eq number_eq
examined_late = refl

accepted_early : (serve_http settings early request empty).0 ≡ accepted
unfolding serve_http deliver examine parse_int valid_signature classify bytes str_eq number_eq
    keep_if has
accepted_early = refl

classify-IsTargeted_example : IsTargeted event hint
unfolding classify bytes str_eq
classify-IsTargeted_example = classify-IsTargeted event hint refl

accepted_iff_example : ((serve_http settings early request empty).0 ≡ accepted) ↔ (
    (hint : Hint) × (body secret : Str) × (seconds : ℤ) × (e : Envelope) × IsGenuine settings early
      request body secret seconds e hint
    × (request.is_post ≡ true)
    × (lookup request.delivery (remembered settings early empty) ≡ none)
    × (length (remembered settings early empty) < max_seen))
accepted_iff_example = accepted_iff settings early request empty

nothing_seen : IsBounded empty
nothing_seen = record { unique = tt; fits = omega arith }

no_replay_example :
    (serve_http settings (at 1100000000000) request (
      serve_all settings
        ((at 1050000000000, request) ∷ [])
        (serve_http settings early request empty).1)).0
    ≢ accepted
no_replay_example =
    no_replay settings empty early (at 1100000000000) request request
      ((at 1050000000000, request) ∷ []) nothing_seen accepted_early (refl, tt) refl refl

is_new : IsNew settings early request hint empty
unfolding remembered keep_if lookup
is_new = record { post = refl; examined = examined_early; unseen = refl; room = omega arith }

replay_gap_example :
    ((serve_http settings early request empty).0 ≡ accepted)
    × ((serve_http settings late request (serve_http settings early request empty).1).0 ≡ accepted)
replay_gap_example = replay_gap settings early late request hint empty is_new refl examined_late
